-- ===== src/Nccl/Simulator/Tree/AnyOrder.antt =====
-- The goroutines of a step of the tree, in any order, against the step that puts all messages into
-- the channels first.
use velo_infra_playground.Prelude.{
  ℕ, suc, ◌*◌, ◌≤◌, ◌<◌, ◌≡◌, refl, sym, ap, ◌∙◌, inl, inr, List, [], ◌∷◌, ◌++◌, All, Bool, true,
  false, not, Option, some, Bool-cases, nat_Eq, if◌then◌else◌, arith,
}
use velo_infra_playground.Nccl.Sums.{Shuffle, below_list}
use velo_infra_playground.Nccl.Simulator.Types.{BlockMsg}
use velo_infra_playground.Nccl.Simulator.Tree.Run.{tree_receives, addressed, incoming}
use velo_infra_playground.Nccl.Simulator.Tree.Delivery.{select}
use velo_infra_playground.Nccl.Simulator.Tree.Upward.{top_of}
use velo_infra_playground.Nccl.Simulator.Tree.Goroutines.{Flight, take_off, fly}
use velo_infra_playground.Nccl.Simulator.Tree.Parcels.{incoming-append, tree_receives-absorbed}
use velo_infra_playground.Nccl.Network.Below.{Below, Below-all}
use velo_infra_playground.Nccl.Simulator.Tree.Run.{
  TreeSimulator, tree_step, buffer_after, channel_after, update_tree_state,
}
use velo_infra_playground.Nccl.Simulator.Tree.Results.{all_received-some}
use velo_infra_playground.Nccl.Simulator.Tree.Schedules.{fly-Sound}
use velo_infra_playground.Nccl.Simulator.Tree.Interleaving.{Sound, parcel, take_off-Sound}

module _ {V : Type 0} (add : V → V → V) (n k : ℕ) (buffers : ℕ → List V) where
  incoming-unsent :
      (f : Flight V) (sound : Sound add n k buffers f)
      → ((j : ℕ) → j < n → f.outgoing j ≡ [])
      → (i m : ℕ) → m ≤ n
      → incoming n k buffers i (select (λ j. not (sound.sent i j)) (below_list m)) ≡ []
  unfolding incoming addressed
  incoming-unsent f sound ended i ℕ.zero h = refl
  incoming-unsent f sound ended i (ℕ.suc m) h =
      let before = incoming-unsent f sound ended i m (omega arith) in
      let last : [] ≡ (if sound.sent i m then [] else parcel add n k buffers i m) =
        sym (ap (addressed i) (ended m (omega arith))) ∙ sound.left i m in
      elim (Bool-cases (sound.sent i m)) [
        | inl already ↦ rw already before
        | inr open_yet ↦ rw open_yet (
            ap
              (λ l. l ++ incoming n k buffers i (select (λ j. not (sound.sent i j)) (below_list m)))
              (sym (rw open_yet at last))
            ∙ before)
      ]

  -- The order in which the messages came into a channel, and the GPUs that sent none there.
  abbrev order_of : (f : Flight V) → Sound add n k buffers f → ℕ → List ℕ
  order_of f sound i = sound.delivered i ++ select (λ j. not (sound.sent i j)) (below_list n)

  landed :
      (f : Flight V) (sound : Sound add n k buffers f)
      → ((j : ℕ) → j < n → f.outgoing j ≡ [])
      → ((j : ℕ) → j < n → f.waits_for j ≡ 0)
      → (i : ℕ) → i < n
      → tree_receives add n k i (incoming n k buffers i (order_of f sound i)) (buffers i)
        ≡ some (f.held i, f.channels i)
  landed f sound ended over i i_lt =
      rw
        (incoming-append n k buffers i (sound.delivered i) _
          ∙ ap (λ l. incoming n k buffers i (sound.delivered i) ++ l)
              (incoming-unsent f sound ended i n (omega arith))
          ∙ append_nil (incoming n k buffers i (sound.delivered i))
          ∙ sym (sound.arrived i))
        (tree_receives-absorbed add n k i (sound.consumed i) (f.channels i) (buffers i) (f.held i)
          (omega (arith, sound.counted i, over i i_lt)) (sound.taken i))
    where
      append_nil : {A : Type 0} (xs : List A) → xs ++ [] ≡ xs
      append_nil [] = refl
      append_nil (x ∷ xs) = ap (λ l. x ∷ l) (append_nil xs)

module _ {V : Type 0} (add : V → V → V) (n : ℕ) (sim : TreeSimulator V) (orders : ℕ → List ℕ) where
  abbrev results : ℕ → Option (List V × List (BlockMsg V))
  results i =
      tree_receives add n sim.state.step i
        (sim.channels i ++ incoming n sim.state.step sim.buffers i (orders i)) (sim.buffers i)

  abbrev stepped : TreeSimulator V
  stepped = record {
    buffers = λ i. buffer_after (sim.buffers i) (results i);
    channels = λ i. channel_after (results i);
    state =
        update_tree_state n (λ i. buffer_after (sim.buffers i) (results i))
          (record sim.state { step = suc sim.state.step });
  }

  -- What a step comes to if every GPU ends it.
  tree_step-stepped :
      (f : Flight V)
      → sim.state.finished ≡ false
      → ((i : ℕ) → i < n → results i ≡ some (f.held i, f.channels i))
      → (tree_step add n orders sim
          ≡ some (stepped, if stepped.state.finished then false else true))
        × Below (λ i. (stepped.buffers i ≡ f.held i) × (stepped.channels i ≡ f.channels i)) n
  unfolding tree_step
  tree_step-stepped f running each = (
    rw (running, tree_step)
        (rw (all_received-some results (λ i. (f.held i, f.channels i)) n each) refl),
    Below-all _ n (λ i i_lt. rw (each i i_lt) (refl, refl)),
  )

-- In whatever order the goroutines of a step do their channel operations: once all have ended, the
-- buffers and channels are those that the step gives for some order of arrival of the messages, if
-- the channels were empty before.
pub fly-tree_step :
    {V : Type 0} (add : V → V → V) (n : ℕ) (sim : TreeSimulator V)
    → sim.state.finished ≡ false
    → sim.state.step < 2 * top_of n
    → ((i : ℕ) → i < n → sim.channels i ≡ [])
    → (schedule : List ℕ) → All (λ i. i < n) schedule
    → (f : Flight V)
    → fly add n sim.state.step schedule (take_off n sim.state.step sim.buffers) ≡ some f
    → ((i : ℕ) → i < n → f.outgoing i ≡ [])
    → ((i : ℕ) → i < n → f.waits_for i ≡ 0)
    → (orders : ℕ → List ℕ) × ((i : ℕ) → Shuffle (orders i) (below_list n))
      × (t : TreeSimulator V) × (more : Bool) × (tree_step add n orders sim ≡ some (t, more))
      × Below (λ i. (t.buffers i ≡ f.held i) × (t.channels i ≡ f.channels i)) n
fly-tree_step add n sim running down empty schedule real f flown ended over =
    let sound =
      fly-Sound add n sim.state.step sim.buffers down schedule _ f
        (take_off-Sound add n sim.state.step sim.buffers) real flown in
    let orders = order_of add n sim.state.step sim.buffers f sound in
    let each : (i : ℕ) → i < n → results add n sim orders i ≡ some (f.held i, f.channels i) =
      λ i i_lt.
        rw (empty i i_lt) (landed add n sim.state.step sim.buffers f sound ended over i i_lt) in
    let (returns, agree) = tree_step-stepped add n sim orders f running each in
    (orders, sound.order, stepped add n sim orders, _, returns, agree)
