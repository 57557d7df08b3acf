-- ===== src/Nccl/Simulator/Tree/Shown.antt =====
-- The display of a tree on the way up.
use velo_infra_playground.Prelude.{
  ℕ, suc, ◌-◌, ◌/◌, ◌<◌, ◌≡◌, refl, List, [], ◌∷◌, false, some, arith,
}
use velo_infra_playground.Prelude.Int.{pos}
use velo_infra_playground.Nccl.Simulator.Types.{Status, SimulationState}
use velo_infra_playground.Nccl.Simulator.View.{
  is_empty, status, tree_status, last_sent_to, tree_sent_to, as_int,
}
use velo_infra_playground.Nccl.Simulator.Tree.{children_upto, parent_of, depths, tree_gpu}
use velo_infra_playground.Nccl.Simulator.Tree.Children.{Elem, children_upto-Elem}
use velo_infra_playground.Nccl.Simulator.Tree.Levels.{depth_up}

has_child : (c : ℕ) (xs : List ℕ) → Elem c xs → is_empty xs ≡ false
has_child c [] h = absurd h
has_child c (x ∷ xs) h = refl

-- While a tree reduces upwards, a GPU at the active depth is shown to send to its parent, which is
-- shown to receive.
pub display-tree :
    {V : Type 0} (state : SimulationState V) (n i : ℕ)
    → suc i < n
    → state.finished ≡ false
    → state.step < state.max_depth
    → (depths n).depth (suc i) ≡ state.max_depth - state.step
    → (status state (tree_gpu n (suc i)) ≡ Status.sending)
      × (last_sent_to state (tree_gpu n (suc i)) ≡ some (pos (i / 2)))
      × (status state (tree_gpu n (i / 2)) ≡ Status.receiving)
unfolding status tree_status last_sent_to tree_sent_to as_int tree_gpu parent_of
display-tree state n i h running early active = (
  rw (running, status) (ground arith),
  ground arith,
  rw (running, status)
      (ground (
        arith,
        depth_up n i h,
        has_child (suc i) (children_upto n (i / 2)) (children_upto-Elem n i h),
      )),
)
