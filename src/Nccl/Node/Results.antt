-- ===== src/Nccl/Node/Results.antt =====
-- What holds of the ring under every schedule.
use velo_infra_playground.Prelude.{
  ℕ, ◌-◌, ◌^◌, ◌≤◌, ◌<◌, ◌≡◌, ◌≢◌, ◌⊎◌, ap, ◌∙◌, inl, inr, List, ◌∷◌, All, ltb, if◌then◌else◌,
  arith,
}
use velo_infra_playground.Prelude.Int.{pos}
use velo_infra_playground.Nccl.Network.{Net, Action, fire, run}
use velo_infra_playground.Nccl.Network.Follows.{Inv, fire-Good, Good-ne-panicked, At-head, run-Inv}
use velo_infra_playground.Nccl.Network.Below.{Below-at, Below, Below-all}
use velo_infra_playground.Nccl.Network.Limit.{run-done}
use velo_infra_playground.Nccl.Network.Progress.{done-or-Moves, run-completes}
use velo_infra_playground.Nccl.Buffers.{tabulate, tabulate-ext}
use velo_infra_playground.Nccl.AllReduce.{ring_sum, value-end}
use velo_infra_playground.Nccl.Node.{Message, ring, rounds, start}
use velo_infra_playground.Nccl.Node.Correct.{buffers, letters, ring-Runs, start-Inv}

module _ {V : Type 0} (add : V → V → V) (n : ℕ) (initial : ℕ → ℕ → V) (many : 1 < n)
    (small : n < 2 ^ 61) (schedule : List ℕ) (real : All (λ i. i < n) schedule) where
  -- The net after the schedule.
  abbrev pub after : Net V (Message V)
  after = run (ring add n) (rounds add n) schedule (start n initial)

  after-Inv :
      Inv
        (ring add n)
        (rounds add n)
        (buffers add n initial many small)
        (letters add n initial many small)
        after
  after-Inv =
      run-Inv (ring add n) (rounds add n) _ _ (ring-Runs add n initial many small) (rounds add n)
        (omega arith) schedule real (start n initial) (start-Inv add n initial many small)

  -- Every node that has ended holds, of each block, the sum over all nodes that goes round the
  -- ring from the block's own node, whatever the addition and however the nodes were scheduled.
  pub run-ring_sum :
      (i : ℕ)
      → i < n
      → (after.workers i).done ≡ rounds add n
      → (after.workers i).buffer ≡ tabulate n (λ b. ring_sum add n initial b (n - 1))
  run-ring_sum i i_lt over =
      (after-Inv i i_lt).buffer
      ∙ ap (λ k. buffers add n initial many small k i) over
      ∙ tabulate-ext n _ _ (λ b b_lt. value-end add n initial i b i_lt b_lt)

  -- No node ever panics, and there is no deadlock: all nodes have ended, or some node can move.
  pub run-moves :
      Below (λ i. fire (ring add n) (rounds add n) i after ≢ Action.panicked) n
      × (Below (λ i. rounds add n ≤ (after.workers i).done) n
          ⊎ ((i : ℕ) × (i < n)
              × (next : Net V (Message V)) × (fire (ring add n) (rounds add n) i after
                  ≡ Action.moved next)))
  run-moves = (
    Below-all _ n (λ i i_lt.
        Good-ne-panicked (ring add n) (rounds add n) (buffers add n initial many small)
          (letters add n initial many small) _
          (fire-Good (ring add n) (rounds add n) _ _ (ring-Runs add n initial many small) after
            after-Inv i i_lt (rounds add n) (omega arith))),
    elim (done-or-Moves (ring add n) (rounds add n) _ _ (ring-Runs add n initial many small)
        (rounds add n) (omega arith) after after-Inv) [
          | inl over ↦ inl over
          | inr (i, i_lt, (t, e, _, _)) ↦ inr (i, i_lt, t, e)
        ],
  )

  -- From where the schedule has led, some further schedule brings every node to its end.
  pub run-ends :
      (more : List ℕ) × All (λ i. i < n) more
      × Below (λ i. rounds add n ≤ ((run (ring add n) (rounds add n) more after).workers i).done) n
  run-ends =
      run-completes (ring add n) (rounds add n) _ _ (ring-Runs add n initial many small)
        (rounds add n) (omega arith) after after-Inv

  -- The message that a node is about to receive is always of the step that the node is in, so the
  -- report of a lost synchronisation is never printed.
  pub run-in_step :
      (i : ℕ) (message : Message V) (rest : List (Message V))
      → i < n
      → after.inbox i ≡ message ∷ rest
      → message.step
        ≡ pos (
            if ltb (after.workers i).done (n - 1)
            then (after.workers i).done
            else (after.workers i).done - (n - 1))
  run-in_step i message rest i_lt full =
      ap (λ (m : Message V). m.step)
        (At-head (ring add n) (rounds add n) _ (letters add n initial many small) after i
          (after-Inv i i_lt) full)

  pub ended :
      (i : ℕ)
      → i < n
      → Below (λ j. rounds add n ≤ (after.workers j).done) n
      → (after.workers i).done ≡ rounds add n
  unfolding start
  ended i i_lt over = omega (
    arith,
    Below-at _ n i i_lt over,
    run-done (ring add n) (rounds add n) schedule i (start n initial) (omega arith),
  )
