-- ===== src/Nccl/Simulator/Tree/Results.antt =====
-- What the steps of a tree come to, in whatever order its messages arrive.
use velo_infra_playground.Prelude.{
  ℕ, suc, ◌+◌, ◌*◌, ◌≤◌, ◌<◌, ◌≡◌, ◌⊎◌, refl, sym, ap, ◌∙◌, inl, inr, List, [], ◌∷◌, ◌++◌, length,
  All, true, false, Option, some, ltb, leb, if◌then◌else◌, arith, Bool-cases,
}
use velo_infra_playground.Nccl.Buffers.{tabulate, tabulate-ext}
use velo_infra_playground.Nccl.Node.{expected_sum}
use velo_infra_playground.Nccl.Node.Total.{AdditionLaws}
use velo_infra_playground.Nccl.Network.Below.{Below, Below-all}
use velo_infra_playground.Nccl.Sums.{Shuffle, below_list}
use velo_infra_playground.Nccl.Simulator.Types.{BlockMsg, SimulationState}
use velo_infra_playground.Nccl.Simulator.Tree.Run.{
  TreeSimulator, tree_receives, incoming, buffer_after, channel_after, all_received,
  update_tree_state, new_tree_simulator, tree_step, simulate_tree,
}
use velo_infra_playground.Nccl.Simulator.Tree.Upward.{top_of, receives_up}
use velo_infra_playground.Nccl.Simulator.Tree.Downward.{receives_down, sunk}
use velo_infra_playground.Nccl.Simulator.Tree.Shape.{tree_step-over}
use velo_infra_playground.Nccl.Simulator.Tree.AllReduce.{value, value_up, value_last}

All-Shuffle : (P : ℕ → Type 0) {xs ys : List ℕ} → Shuffle xs ys → All P ys → All P xs
All-Shuffle P Shuffle.nil h = tt
All-Shuffle P (Shuffle.cons x s) h = (h.0, All-Shuffle P s h.1)
All-Shuffle P (Shuffle.swap x y s) h = (h.1.0, (h.0, All-Shuffle P s h.1.1))
All-Shuffle P (Shuffle.trans s t) h = All-Shuffle P s (All-Shuffle P t h)

All-below_list : (n m : ℕ) → m ≤ n → All (λ j. j < n) (below_list m)
All-below_list n ℕ.zero h = tt
All-below_list n (ℕ.suc m) h = (h, All-below_list n m (omega arith))

incoming-ext :
    {V : Type 0} (n k i : ℕ) (a b : ℕ → List V) (js : List ℕ)
    → All (λ j. j < n) js
    → ((j : ℕ) → j < n → a j ≡ b j)
    → incoming n k a i js ≡ incoming n k b i js
unfolding incoming
incoming-ext n k i a b [] h same = refl
incoming-ext n k i a b (j ∷ js) h same = rw (same j h.0, incoming-ext n k i a b js h.1 same) refl

pub all_received-some :
    {A : Type 0} (results : ℕ → Option A) (f : ℕ → A) (n : ℕ)
    → ((i : ℕ) → i < n → results i ≡ some (f i))
    → all_received results n ≡ true
unfolding all_received
all_received-some results f ℕ.zero h = refl
all_received-some results f (ℕ.suc n) h =
    rw (h n (omega arith), all_received) (all_received-some results f n (λ i lt. h i (omega arith)))

module _ {V : Type 0} (add : V → V → V) (zero : V) (laws : AdditionLaws add zero) (n : ℕ)
    (some_gpu : 0 < n) (initial : ℕ → ℕ → V) where
  -- Between two steps the channels are empty, and the buffers hold the values of the step.
  record Settled (sim : TreeSimulator V) : Type 0 where
    buffers :
        (i : ℕ) → i < n → sim.buffers i ≡ tabulate n (value add zero n initial sim.state.step i)
    channels : (i : ℕ) → i < n → sim.channels i ≡ []
    within : sim.state.step ≤ 2 * top_of n
    height : sim.state.max_depth ≡ top_of n
    ends : sim.state.finished ≡ leb (2 * top_of n) sim.state.step

  update_tree_state-finished :
      (buffers : ℕ → List V) (state : SimulationState V)
      → state.finished ≡ false
      → state.max_depth ≡ top_of n
      → (update_tree_state n buffers state).finished ≡ leb (2 * top_of n) state.step
  unfolding update_tree_state
  update_tree_state-finished buffers state running height = ground arith

  new_tree_simulator-Settled : Settled (new_tree_simulator n initial)
  unfolding new_tree_simulator update_tree_state value
  new_tree_simulator-Settled = record {
    buffers = λ i i_lt. refl;
    channels = λ i i_lt. refl;
    within = omega arith;
    height = refl;
    ends = ground arith;
  }

  value_sunk :
      (k i b : ℕ)
      → top_of n ≤ k
      → k < 2 * top_of n
      → sunk n k (value add zero n initial k) i b ≡ value add zero n initial (suc k) i b
  unfolding value
  value_sunk k i b turned down = ground arith

  received-value :
      (k : ℕ)
      → k < 2 * top_of n
      → (i : ℕ) → i < n
      → (order : List ℕ) → Shuffle order (below_list n)
      → tree_receives add n k i
          (incoming n k (λ j. tabulate n (value add zero n initial k j)) i order)
          (tabulate n (value add zero n initial k i))
        ≡ some (tabulate n (value add zero n initial (suc k) i), [])
  received-value k within i i_lt order every = elim (Bool-cases (ltb k (top_of n))) [
    | inl e ↦
        receives_up add zero laws n k (ground arith) (value add zero n initial k) i order every
        ∙ ap (λ b. some (b, []))
            (tabulate-ext n _ _
              (λ b b_lt. sym (value_up add zero laws n initial k i b (ground arith))))
    | inr e ↦
        receives_down add n k (ground arith) within (value add zero n initial k) i i_lt order every
        ∙ ap (λ b. some (b, []))
            (tabulate-ext n _ _ (λ b b_lt. value_sunk k i b (ground arith) within))
  ]

  module _ (sim : TreeSimulator V) (settled : Settled sim) (running : sim.state.finished ≡ false)
      (orders : ℕ → List ℕ) (every : (i : ℕ) → Shuffle (orders i) (below_list n)) where
    early : suc sim.state.step ≤ 2 * top_of n
    early = ground (arith, settled.ends)

    abbrev results : ℕ → Option (List V × List (BlockMsg V))
    results i =
        tree_receives add n sim.state.step i
          (sim.channels i ++ incoming n sim.state.step sim.buffers i (orders i)) (sim.buffers i)

    results-value :
        (i : ℕ)
        → i < n
        → results i ≡ some (tabulate n (value add zero n initial (suc sim.state.step) i), [])
    results-value i i_lt =
        rw
          (
            settled.channels i i_lt,
            settled.buffers i i_lt,
            incoming-ext n sim.state.step i sim.buffers
                (λ j. tabulate n (value add zero n initial sim.state.step j)) (orders i)
                (All-Shuffle _ (every i) (All-below_list n n (omega arith))) settled.buffers,
          )
          (received-value sim.state.step early i i_lt (orders i) (every i))

    abbrev moved : TreeSimulator V
    moved = record {
      buffers = λ i. buffer_after (sim.buffers i) (results i);
      channels = λ i. channel_after (results i);
      state =
          update_tree_state n (λ i. buffer_after (sim.buffers i) (results i))
            (record sim.state { step = suc sim.state.step });
    }

    moved-Settled : Settled moved
    unfolding update_tree_state
    moved-Settled = record {
      buffers = λ i i_lt. rw (results-value i i_lt) refl;
      channels = λ i i_lt. rw (results-value i i_lt) refl;
      within = early;
      height = settled.height;
      ends =
          update_tree_state-finished (λ i. buffer_after (sim.buffers i) (results i))
            (record sim.state { step = suc sim.state.step }) running settled.height;
    }

    tree_step-moved :
        tree_step add n orders sim ≡ some (moved, if moved.state.finished then false else true)
    unfolding tree_step
    tree_step-moved =
        rw (running, tree_step) (rw (all_received-some results _ n results-value) refl)

  -- A step that is given the orders of all its messages returns.
  simulate_tree-Settled :
      (steps : List (ℕ → List ℕ)) (sim : TreeSimulator V)
      → Settled sim
      → All (λ orders. (i : ℕ) → Shuffle (orders i) (below_list n)) steps
      → (t : TreeSimulator V) × (simulate_tree add n steps sim ≡ some t)
        × Settled t
        × (t.state.finished ≡ leb (2 * top_of n) (sim.state.step + length steps))
  unfolding simulate_tree update_tree_state
  simulate_tree-Settled [] sim settled every =
      (sim, refl, settled, settled.ends ∙ ap (leb (2 * top_of n)) (omega arith))
  simulate_tree-Settled (orders ∷ steps) sim settled every = elim (Bool-cases sim.state.finished) [
    | inl over ↦
        let (t, led, settled', ends) = simulate_tree-Settled steps sim settled every.1 in
        (
          t,
          rw (tree_step-over add n sim orders over, simulate_tree) led,
          settled',
          ends ∙ past (2 * top_of n) sim.state.step (length steps) (sym settled.ends ∙ over),
        )
    | inr running ↦
        let (t, led, settled', ends) =
          simulate_tree-Settled steps (moved sim settled running orders every.0)
            (moved-Settled sim settled running orders every.0) every.1 in
        (
          t,
          rw (tree_step-moved sim settled running orders every.0, simulate_tree) led,
          settled',
          ends ∙ ap (leb (2 * top_of n)) (omega arith),
        )
  ]
    where
      past : (r a k : ℕ) → leb r a ≡ true → leb r (a + k) ≡ leb r (a + suc k)
      past r a k e = ground arith

  -- Every step of a tree of at least one GPU returns, in whatever order the messages reach each channel:
  -- no GPU waits in vain or panics, and no message is left over. The simulator has ended exactly if
  -- at least 2 d steps were made, where d is the greatest depth, and every GPU then holds the sum of
  -- every block over all GPUs, for an addition that is associative and commutative with a zero.
  pub simulate_tree-expected_sum :
      (steps : List (ℕ → List ℕ))
      → All (λ orders. (i : ℕ) → Shuffle (orders i) (below_list n)) steps
      → (t : TreeSimulator V) × (simulate_tree add n steps (new_tree_simulator n initial) ≡ some t)
        × Below (λ i. t.channels i ≡ []) n
        × (t.state.finished ≡ leb (2 * top_of n) (length steps))
        × ((t.state.finished ≡ false)
            ⊎ Below (λ i. t.buffers i ≡ tabulate n (expected_sum add zero initial n)) n)
  unfolding new_tree_simulator
  simulate_tree-expected_sum steps every =
      let (t, led, settled, ends) =
        simulate_tree-Settled steps (new_tree_simulator n initial) new_tree_simulator-Settled
          every in
      (
        t,
        led,
        Below-all _ n (λ i i_lt. settled.channels i i_lt),
        ends ∙ ap (leb (2 * top_of n)) (omega arith),
        elim (Bool-cases t.state.finished) [
          | inr running ↦ inl running
          | inl over ↦ inr (
              Below-all _ n (λ i i_lt.
                settled.buffers i i_lt
                ∙ ap (λ k. tabulate n (value add zero n initial k i))
                    (last t.state.step (2 * top_of n) settled.within (sym settled.ends ∙ over))
                ∙ tabulate-ext n _ _ (λ b b_lt. value_last add zero laws n initial i b i_lt)))
        ],
      )
    where
      last : (a b : ℕ) → a ≤ b → leb b a ≡ true → a ≡ b
      last a b h e = ground arith
