-- ===== src/Nccl/Renderer/Links.antt =====
-- The diagram of a tree of four GPUs against the messages of its next step.
use velo_infra_playground.Prelude.{
  ℕ, ◌*◌, ◌≤◌, ◌≡◌, refl, ◌∙◌, ap, List, [], ◌∷◌, String, Bool, true, false, some, leb,
  if◌then◌else◌, arith,
}
use velo_infra_playground.Nccl.Simulator.Types.{SimulationState}
use velo_infra_playground.Nccl.Simulator.Tree.{depths, tree_gpu, parent_of, children_upto}
use velo_infra_playground.Nccl.Simulator.Tree.Run.{
  TreeSimulator, tree_sends, to_parent, addressed, new_tree_simulator, simulate_tree,
}
use velo_infra_playground.Nccl.Simulator.Tree.Upward.{top_of}
use velo_infra_playground.Nccl.Simulator.Tree.Shape.{new_tree_simulator-Shape, simulate_tree-Shape}
use velo_infra_playground.Nccl.Renderer.Colors.{gray, green, yellow}
use velo_infra_playground.Nccl.Renderer.Diagram.{Links, tree_links}

abbrev some_message : {M : Type 0} → List M → Bool
some_message [] = false
some_message (msg ∷ msgs) = true

module _ {V : Type 0} (step : ℕ) (buffers : ℕ → List V) where
  -- Whether a GPU, of four, sends to another in a step.
  abbrev flows : ℕ → ℕ → Bool
  flows from to = some_message (addressed to (tree_sends 4 step from (buffers from)))

  -- What one of three says of a link: that the child sends, that the parent does, or neither.
  abbrev of_link : ℕ → ℕ → String → String → String → String
  of_link parent child up down still =
      if flows child parent then up else if flows parent child then down else still

  -- The diagram that shows the messages of a step.
  abbrev pub sent_links : Links
  sent_links = record {
    l01 = of_link 0 1 yellow green gray;
    l02 = of_link 0 2 yellow green gray;
    l13 = of_link 1 3 yellow green gray;
    dir01 = of_link 0 1 "▲ " "▼ " "──";
    dir02 = of_link 0 2 " ▲" " ▼" "──";
    dir13 = of_link 1 3 "▲ " "▼ " "──";
  }

tree_links-at :
    {V : Type 0} (buffers : ℕ → List V) (state : SimulationState V) (k : ℕ)
    → k ≤ 4
    → state.step ≡ k
    → state.max_steps ≡ 4
    → state.finished ≡ leb 4 k
    → tree_links state ≡ sent_links k buffers
unfolding tree_links tree_sends addressed to_parent depths tree_gpu parent_of children_upto
tree_links-at buffers state ℕ.zero h s m f = rw (f, s, m, tree_links) refl
tree_links-at buffers state (ℕ.suc ℕ.zero) h s m f = rw (f, s, m, tree_links) refl
tree_links-at buffers state (ℕ.suc (ℕ.suc ℕ.zero)) h s m f = rw (f, s, m, tree_links) refl
tree_links-at buffers state (ℕ.suc (ℕ.suc (ℕ.suc ℕ.zero))) h s m f = rw (f, s, m, tree_links) refl
tree_links-at buffers state (ℕ.suc (ℕ.suc (ℕ.suc (ℕ.suc ℕ.zero)))) h s m f = rw (f, tree_links) refl
tree_links-at buffers state (ℕ.suc (ℕ.suc (ℕ.suc (ℕ.suc (ℕ.suc k))))) h s m f = absurd (omega arith)

height_of_four : 2 * top_of 4 ≡ 4
unfolding depths children_upto
height_of_four = refl

-- In the diagram of a tree of four GPUs, after any steps that returned, a link is drawn as used
-- upwards exactly if in the next step its child sends to its parent, and as used downwards exactly
-- if its parent sends to its child.
pub tree_links-sent_links :
    {V : Type 0} (add : V → V → V) (initial : ℕ → ℕ → V) (steps : List (ℕ → List ℕ))
    (sim : TreeSimulator V)
    → simulate_tree add 4 steps (new_tree_simulator 4 initial) ≡ some sim
    → tree_links sim.state ≡ sent_links sim.state.step sim.buffers
tree_links-sent_links add initial steps sim reached =
    let shape =
      simulate_tree-Shape add 4 steps _ sim (new_tree_simulator-Shape add 4 initial) reached in
    tree_links-at sim.buffers sim.state sim.state.step (omega (arith, shape.within, height_of_four))
      refl (shape.total ∙ height_of_four)
      (shape.ends ∙ ap (λ m. leb m sim.state.step) height_of_four)
