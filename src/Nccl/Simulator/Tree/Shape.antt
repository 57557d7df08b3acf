-- ===== src/Nccl/Simulator/Tree/Shape.antt =====
-- What the steps of a tree keep, whatever the addition and the order of the messages: the sizes of
-- the buffers, and the count of the steps.
use velo_infra_playground.Prelude.{
  either, ℕ, suc, ◌-◌, ◌*◌, ◌≤◌, ◌≡◌, refl, sym, ap, subst, ◌∙◌, inl, inr, List, [], ◌∷◌, ◌++◌,
  length, All, Bool, true, false, Option, none, some, some_inj, none-ne-some, Option-cases, ltb,
  leb, nat_eq, if◌then◌else◌, arith, Bool-cases,
}
use velo_infra_playground.Nccl.Buffers.{length-tabulate_from, All-tabulate}
use velo_infra_playground.Nccl.Simulator.Types.{Topology, BlockMsg, GpuState, SimulationState}
use velo_infra_playground.Nccl.Simulator.View.{snapshot}
use velo_infra_playground.Nccl.Simulator.Tree.{tree_gpu}
use velo_infra_playground.Nccl.Simulator.Tree.Run.{
  TreeSimulator, reduce_values, copy_values, reduce_all, copy_one, expected_count, tree_receives,
  incoming, buffer_after, channel_after, all_received, update_tree_state, new_tree_simulator,
  tree_step, simulate_tree,
}
use velo_infra_playground.Nccl.Simulator.Tree.Upward.{top_of}

module _ {V : Type 0} (add : V → V → V) where
  length-reduce_values :
      (buffer values out : List V)
      → reduce_values add buffer values ≡ some out
      → length out ≡ length buffer
  unfolding reduce_values
  length-reduce_values [] values out e = ap length (sym (some_inj e))
  length-reduce_values (b ∷ buffer) [] out e = absurd (none-ne-some e)
  length-reduce_values (b ∷ buffer) (v ∷ values) out e =
      elim (Option-cases (reduce_values add buffer values)) [
        | inl short ↦ absurd (none-ne-some (rw (short, reduce_values) at e))
        | inr (rest, done) ↦
            ap length (sym (some_inj (rw (done, reduce_values) at e)))
            ∙ ap suc (length-reduce_values buffer values rest done)
      ]

  length-reduce_all :
      (m k : ℕ) (channel : List (BlockMsg V)) (before buffer : List V)
      → length before ≡ m
      → length buffer ≡ m
      → length (buffer_after before (reduce_all add k channel buffer)) ≡ m
  unfolding reduce_all
  length-reduce_all m ℕ.zero channel before buffer p q = q
  length-reduce_all m (ℕ.suc k) [] before buffer p q = p
  length-reduce_all m (ℕ.suc k) (msg ∷ channel) before buffer p q =
      elim (Option-cases (reduce_values add buffer msg.values)) [
        | inl short ↦ rw (short, reduce_all) p
        | inr (rest, done) ↦
            rw (done, reduce_all)
              (length-reduce_all m k channel before rest p
                (length-reduce_values buffer msg.values rest done ∙ q))
      ]

  length-copy_values : (buffer values : List V) → length (copy_values buffer values) ≡ length buffer
  unfolding copy_values
  length-copy_values [] values = refl
  length-copy_values (b ∷ buffer) [] = refl
  length-copy_values (b ∷ buffer) (v ∷ values) = ap suc (length-copy_values buffer values)

  length-copy_one :
      (channel : List (BlockMsg V)) (buffer : List V)
      → length (buffer_after buffer (copy_one channel buffer)) ≡ length buffer
  unfolding copy_one
  length-copy_one [] buffer = refl
  length-copy_one (msg ∷ channel) buffer = length-copy_values buffer msg.values

  length-tree_receives :
      (n step i : ℕ) (channel : List (BlockMsg V)) (buffer : List V)
      → length (buffer_after buffer (tree_receives add n step i channel buffer)) ≡ length buffer
  unfolding tree_receives
  length-tree_receives n step i channel buffer =
      either fits (ltb step (top_of n))
        (either fits (nat_eq (tree_gpu n i).depth (top_of n - step)) refl (
          either fits (nat_eq (tree_gpu n i).depth (top_of n - step - 1))
            (length-reduce_all (length buffer)
              (expected_count n (top_of n - step) (tree_gpu n i).children) channel buffer buffer
              refl refl)
            refl))
        (either fits (ltb step (2 * top_of n))
          (either fits (nat_eq (tree_gpu n i).depth (step - top_of n)) refl (
            either fits (nat_eq (tree_gpu n i).depth (suc (step - top_of n)))
              (length-copy_one channel buffer) refl))
          refl)
    where
      fits : Option (List V × List (BlockMsg V)) → Type 0
      fits r = length (buffer_after buffer r) ≡ length buffer

  module _ (n : ℕ) where
    -- One GPU after the other is shown, with a buffer of one block per GPU.
    abbrev pub Shown : SimulationState V → Type 0
    Shown state = All (λ (g : GpuState V). length g.buffer ≡ n) state.gpus × (length state.gpus ≡ n)

    -- Every buffer, held or shown, has one block per GPU, and the steps are counted up to the end.
    pub record Shape (sim : TreeSimulator V) : Type 0 where
      pub held : (i : ℕ) → length (sim.buffers i) ≡ n
      pub shown : Shown sim.state
      pub topology : sim.state.topology ≡ Topology.tree
      pub height : sim.state.max_depth ≡ top_of n
      pub total : sim.state.max_steps ≡ 2 * top_of n
      pub within : sim.state.step ≤ 2 * top_of n
      pub ends : sim.state.finished ≡ leb (2 * top_of n) sim.state.step

    update_tree_state-Shown :
        (buffers : ℕ → List V) (state : SimulationState V)
        → ((i : ℕ) → length (buffers i) ≡ n)
        → Shown (update_tree_state n buffers state)
    unfolding update_tree_state snapshot
    update_tree_state-Shown buffers state held =
        (All-tabulate _ n _ (λ i i_lt. held i), length-tabulate_from 0 n _)

    update_tree_state-ends :
        (buffers : ℕ → List V) (state : SimulationState V)
        → state.finished ≡ false
        → state.max_depth ≡ top_of n
        → (update_tree_state n buffers state).finished ≡ leb (2 * top_of n) state.step
    unfolding update_tree_state
    update_tree_state-ends buffers state running height = ground arith

    pub new_tree_simulator-Shape : (initial : ℕ → ℕ → V) → Shape (new_tree_simulator n initial)
    unfolding new_tree_simulator update_tree_state
    new_tree_simulator-Shape initial = record {
      held = λ i. length-tabulate_from 0 n (initial i);
      shown = update_tree_state-Shown _ _ (λ i. length-tabulate_from 0 n (initial i));
      topology = refl;
      height = refl;
      total = refl;
      within = omega arith;
      ends = ground arith;
    }

    module _ (sim : TreeSimulator V) (shape : Shape sim) (orders : ℕ → List ℕ) where
      abbrev results : ℕ → Option (List V × List (BlockMsg V))
      results i =
          tree_receives add n sim.state.step i
            (sim.channels i ++ incoming n sim.state.step sim.buffers i (orders i)) (sim.buffers i)

      abbrev moved : TreeSimulator V
      moved = record {
        buffers = λ i. buffer_after (sim.buffers i) (results i);
        channels = λ i. channel_after (results i);
        state =
            update_tree_state n (λ i. buffer_after (sim.buffers i) (results i))
              (record sim.state { step = suc sim.state.step });
      }

      moved-Shape : sim.state.finished ≡ false → Shape moved
      unfolding update_tree_state
      moved-Shape running = record {
        held = λ i. length-tree_receives n sim.state.step i _ (sim.buffers i) ∙ shape.held i;
        shown =
            update_tree_state-Shown _ (record sim.state { step = suc sim.state.step })
              (λ i. length-tree_receives n sim.state.step i _ (sim.buffers i) ∙ shape.held i);
        topology = shape.topology;
        height = shape.height;
        total = shape.total;
        within = ground (arith, shape.ends);
        ends =
            update_tree_state-ends (λ i. buffer_after (sim.buffers i) (results i))
              (record sim.state { step = suc sim.state.step }) running shape.height;
      }

    pub tree_step-over :
        (sim : TreeSimulator V) (orders : ℕ → List ℕ)
        → sim.state.finished ≡ true
        → tree_step add n orders sim ≡ some (sim, false)
    unfolding tree_step
    tree_step-over sim orders over = rw (over, tree_step) refl

    module _ (sim : TreeSimulator V) (shape : Shape sim) (orders : ℕ → List ℕ)
        (running : sim.state.finished ≡ false) where
      tree_step-moved :
          all_received (results sim shape orders) n ≡ true
          → tree_step add n orders sim
            ≡ some (
              moved sim shape orders,
              if (moved sim shape orders).state.finished then false else true,
            )
      unfolding tree_step
      tree_step-moved all = rw (running, tree_step) (rw (all) refl)

      tree_step-waits :
          all_received (results sim shape orders) n ≡ false → tree_step add n orders sim ≡ none
      unfolding tree_step
      tree_step-waits open_step = rw (running, tree_step) (rw (open_step) refl)

    tree_step-Shape :
        (orders : ℕ → List ℕ) (sim t : TreeSimulator V) (more : Bool)
        → Shape sim
        → tree_step add n orders sim ≡ some (t, more)
        → Shape t
    tree_step-Shape orders sim t more shape e = elim (Bool-cases sim.state.finished) [
      | inl over ↦ returned sim false (sym (tree_step-over sim orders over) ∙ e) shape
      | inr running ↦ elim (Bool-cases (all_received (results sim shape orders) n)) [
        | inl all ↦
            returned (moved sim shape orders) _
              (sym (tree_step-moved sim shape orders running all) ∙ e)
              (moved-Shape sim shape orders running)
        | inr waits ↦
            absurd (none-ne-some (sym (tree_step-waits sim shape orders running waits) ∙ e))
      ]
    ]
      where
        returned :
            (s : TreeSimulator V) (b : Bool)
            → ◌≡◌ {A = Option (TreeSimulator V × Bool)} (some (s, b)) (some (t, more))
            → Shape s
            → Shape t
        returned s b same shape =
            subst Shape (ap (λ (r : TreeSimulator V × Bool). r.0) (some_inj same)) shape

    pub simulate_tree-Shape :
        (steps : List (ℕ → List ℕ)) (sim t : TreeSimulator V)
        → Shape sim
        → simulate_tree add n steps sim ≡ some t
        → Shape t
    unfolding simulate_tree
    simulate_tree-Shape [] sim t shape e = subst Shape (some_inj e) shape
    simulate_tree-Shape (orders ∷ steps) sim t shape e =
        elim (Option-cases (tree_step add n orders sim)) [
          | inl waits ↦ absurd (none-ne-some (rw (waits, simulate_tree) at e))
          | inr ((sim', more), returned) ↦
              simulate_tree-Shape steps sim' t (tree_step-Shape orders sim sim' more shape returned)
                (rw (returned, simulate_tree) at e)
        ]
