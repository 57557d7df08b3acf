-- ===== src/Nccl/Simulator/Simulated.antt =====
-- The states that the simulator comes to, in both topologies, and the status that it then shows of
-- each GPU.
use velo_infra_playground.Prelude.{
  ℕ, suc, ◌<◌, ◌≡◌, ◌≢◌, inl, inr, ap, sym, ◌∙◌, refl, if◌then◌else◌, none, subst, List, [], ◌∷◌,
  ◌++◌, All, Bool, true, false, Option, some, none-ne-some, some_inj, Bool-cases, Option-cases,
  arith,
}
use velo_infra_playground.Nccl.Network.{Net, run}
use velo_infra_playground.Nccl.Buffers.{tabulate, All-tabulate}
use velo_infra_playground.Nccl.Simulator.{
  ring, ring_gpu, Simulator, new_simulator, update_state, all_done, step, simulate,
}
use velo_infra_playground.Nccl.Simulator.Types.{
  Topology, BlockMsg, Status, Gpu, GpuState, SimulationState,
}
use velo_infra_playground.Nccl.Simulator.View.{snapshot, status}
use velo_infra_playground.Nccl.Simulator.Tree.{tree_gpu}
use velo_infra_playground.Nccl.Simulator.Tree.Shape.{tree_step-over}
use velo_infra_playground.Nccl.Simulator.Tree.Run.{
  TreeSimulator, new_tree_simulator, update_tree_state, tree_receives, incoming, all_received,
  buffer_after, channel_after, tree_step, simulate_tree,
}

-- The states that the simulator's steps lead to, in both topologies.
pub data Simulated {V : Type 0} (add : V → V → V) (n : ℕ) (initial : ℕ → ℕ → V)
    : SimulationState V → Type 0 where
  of_ring :
      (schedules : List (List ℕ))
      → All (λ s. All (λ i. i < n) s) schedules
      → (sim : Simulator V) → simulate add n schedules (new_simulator n initial) ≡ some sim
      → Simulated add n initial sim.state
  of_tree :
      (steps : List (ℕ → List ℕ)) (sim : TreeSimulator V)
      → simulate_tree add n steps (new_tree_simulator n initial) ≡ some sim
      → Simulated add n initial sim.state

abbrev IsNeverDone : {V : Type 0} → SimulationState V → Type 0
IsNeverDone state = All (λ (g : GpuState _). g.status ≢ Status.done) state.gpus

running-not_done :
    {V : Type 0} (state : SimulationState V) (g : Gpu)
    → state.finished ≡ false
    → status state g ≢ Status.done
unfolding status
running-not_done state g running = go g.topology refl
  where
    go : (t : Topology) → g.topology ≡ t → status state g ≢ Status.done
    go Topology.ring e h = ground (arith, e)
    go Topology.tree e h = ground (arith, e)

-- The copies that are made while the simulation runs.
update_state-IsNeverDone :
    {V : Type 0} (n : ℕ) (net : Net V (BlockMsg V)) (state : SimulationState V)
    → state.finished ≡ false
    → IsNeverDone (update_state n (ring_gpu n) net state)
unfolding update_state snapshot
update_state-IsNeverDone n net state running =
    All-tabulate _ n _ (λ i i_lt. running-not_done state (ring_gpu n i) running)

update_tree_state-IsNeverDone :
    {V : Type 0} (n : ℕ) (buffers : ℕ → List V) (state : SimulationState V)
    → state.finished ≡ false
    → IsNeverDone (update_tree_state n buffers state)
unfolding update_tree_state snapshot
update_tree_state-IsNeverDone n buffers state running =
    All-tabulate _ n _ (λ i i_lt. running-not_done state (tree_gpu n i) running)

module _ {V : Type 0} (add : V → V → V) (n : ℕ) where
  module _ (schedule : List ℕ) (sim : Simulator V) where
    abbrev net : Net V (BlockMsg V)
    net = run (ring add n) (suc sim.state.step) schedule sim.net

    abbrev later : SimulationState V
    later = update_state n (ring_gpu n) net (record sim.state { step = suc sim.state.step })

    step-over : sim.state.finished ≡ true → step add n schedule sim ≡ some (sim, false)
    unfolding step
    step-over over = rw (over, step) refl

    step-moved :
        sim.state.finished ≡ false
        → all_done n (suc sim.state.step) net ≡ true
        → step add n schedule sim
          ≡ some (record { net = net; state = later }, if later.finished then false else true)
    unfolding step
    step-moved running all = rw (running, step) (rw all refl)

    step-waits :
        sim.state.finished ≡ false
        → all_done n (suc sim.state.step) net ≡ false
        → step add n schedule sim ≡ none
    unfolding step
    step-waits running waits = rw (running, step) (rw waits refl)

    step-IsNeverDone :
        (t : Simulator V) (more : Bool)
        → IsNeverDone sim.state
        → step add n schedule sim ≡ some (t, more)
        → IsNeverDone t.state
    step-IsNeverDone t more shown e = elim (Bool-cases sim.state.finished) [
      | inl over ↦ returned sim false (sym (step-over over) ∙ e) shown
      | inr running ↦ elim (Bool-cases (all_done n (suc sim.state.step) net)) [
        | inl all ↦
            returned _ _ (sym (step-moved running all) ∙ e)
              (update_state-IsNeverDone n net _ running)
        | inr waits ↦ absurd (none-ne-some (sym (step-waits running waits) ∙ e))
      ]
    ]
      where
        returned :
            (s : Simulator V) (b : Bool)
            → ◌≡◌ {A = Option (Simulator V × Bool)} (some (s, b)) (some (t, more))
            → IsNeverDone s.state
            → IsNeverDone t.state
        returned s b same h =
            subst (λ (x : Simulator V). IsNeverDone x.state)
              (ap (λ (r : Simulator V × Bool). r.0) (some_inj same)) h

  module _ (orders : ℕ → List ℕ) (sim : TreeSimulator V) where
    abbrev results : ℕ → Option (List V × List (BlockMsg V))
    results i =
        tree_receives add n sim.state.step i
          (sim.channels i ++ incoming n sim.state.step sim.buffers i (orders i)) (sim.buffers i)

    abbrev tree_later : SimulationState V
    tree_later =
        update_tree_state n (λ i. buffer_after (sim.buffers i) (results i))
          (record sim.state { step = suc sim.state.step })

    tree_step-moved :
        sim.state.finished ≡ false
        → all_received results n ≡ true
        → tree_step add n orders sim
          ≡ some (
            record {
              buffers = λ i. buffer_after (sim.buffers i) (results i);
              channels = λ i. channel_after (results i);
              state = tree_later;
            },
            if tree_later.finished then false else true,
          )
    unfolding tree_step
    tree_step-moved running all = rw (running, tree_step) (rw all refl)

    tree_step-waits :
        sim.state.finished ≡ false
        → all_received results n ≡ false
        → tree_step add n orders sim ≡ none
    unfolding tree_step
    tree_step-waits running waits = rw (running, tree_step) (rw waits refl)

    tree_step-IsNeverDone :
        (t : TreeSimulator V) (more : Bool)
        → IsNeverDone sim.state
        → tree_step add n orders sim ≡ some (t, more)
        → IsNeverDone t.state
    tree_step-IsNeverDone t more shown e = elim (Bool-cases sim.state.finished) [
      | inl over ↦ returned sim false (sym (tree_step-over add n sim orders over) ∙ e) shown
      | inr running ↦ elim (Bool-cases (all_received results n)) [
        | inl all ↦
            returned _ _ (sym (tree_step-moved running all) ∙ e)
              (update_tree_state-IsNeverDone n _ _ running)
        | inr waits ↦ absurd (none-ne-some (sym (tree_step-waits running waits) ∙ e))
      ]
    ]
      where
        returned :
            (s : TreeSimulator V) (b : Bool)
            → ◌≡◌ {A = Option (TreeSimulator V × Bool)} (some (s, b)) (some (t, more))
            → IsNeverDone s.state
            → IsNeverDone t.state
        returned s b same h =
            subst (λ (x : TreeSimulator V). IsNeverDone x.state)
              (ap (λ (r : TreeSimulator V × Bool). r.0) (some_inj same)) h

  simulate-IsNeverDone :
      (schedules : List (List ℕ)) (sim t : Simulator V)
      → IsNeverDone sim.state
      → simulate add n schedules sim ≡ some t
      → IsNeverDone t.state
  unfolding simulate
  simulate-IsNeverDone [] sim t shown e =
      subst (λ (s : Simulator V). IsNeverDone s.state) (some_inj e) shown
  simulate-IsNeverDone (schedule ∷ schedules) sim t shown e =
      elim (Option-cases (step add n schedule sim)) [
        | inl waits ↦ absurd (none-ne-some (rw (waits, simulate) at e))
        | inr ((sim', more), returned) ↦
            simulate-IsNeverDone schedules sim' t
              (step-IsNeverDone schedule sim sim' more shown returned)
              (rw (returned, simulate) at e)
      ]

  simulate_tree-IsNeverDone :
      (steps : List (ℕ → List ℕ)) (sim t : TreeSimulator V)
      → IsNeverDone sim.state
      → simulate_tree add n steps sim ≡ some t
      → IsNeverDone t.state
  unfolding simulate_tree
  simulate_tree-IsNeverDone [] sim t shown e =
      subst (λ (s : TreeSimulator V). IsNeverDone s.state) (some_inj e) shown
  simulate_tree-IsNeverDone (orders ∷ steps) sim t shown e =
      elim (Option-cases (tree_step add n orders sim)) [
        | inl waits ↦ absurd (none-ne-some (rw (waits, simulate_tree) at e))
        | inr ((sim', more), returned) ↦
            simulate_tree-IsNeverDone steps sim' t
              (tree_step-IsNeverDone orders sim sim' more shown returned)
              (rw (returned, simulate_tree) at e)
      ]

  -- After any steps that returned, of a ring or of a tree of any number of GPUs, no GPU is shown as
  -- done, not even when the simulation has ended.
  pub Simulated-never_done :
      (initial : ℕ → ℕ → V) (state : SimulationState V)
      → Simulated add n initial state
      → All (λ (g : GpuState V). g.status ≢ Status.done) state.gpus
  unfolding new_simulator new_tree_simulator
  Simulated-never_done initial _ (Simulated.of_ring schedules real sim reached) =
      simulate-IsNeverDone schedules (new_simulator n initial) sim
        (update_state-IsNeverDone n (new_simulator n initial).net _ refl) reached
  Simulated-never_done initial _ (Simulated.of_tree steps sim reached) =
      simulate_tree-IsNeverDone steps (new_tree_simulator n initial) sim
        (update_tree_state-IsNeverDone n (λ i. tabulate n (initial i)) _ refl) reached
