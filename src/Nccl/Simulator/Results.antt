-- ===== src/Nccl/Simulator/Results.antt =====
-- What the steps of the simulator come to, in whatever order its goroutines move.
use velo_infra_playground.Prelude.{
  ℕ, suc, ◌+◌, ◌-◌, ◌*◌, ◌^◌, ◌≤◌, ◌<◌, ◌≡◌, ◌⊎◌, sym, ap, ◌∙◌, inl, inr, List, [], ◌∷◌, ◌++◌, All,
  Bool, some, true, false, leb, arith, Bool-cases, nat_Eq, length,
}
use velo_infra_playground.Nccl.Network.{run, run-append}
use velo_infra_playground.Nccl.Network.Below.{Below, Below-all}
use velo_infra_playground.Nccl.Network.Progress.{run-completes}
use velo_infra_playground.Nccl.Buffers.{tabulate, tabulate-ext}
use velo_infra_playground.Nccl.AllReduce.{ring_sum, value-end}
use velo_infra_playground.Nccl.Simulator.{ring, Simulator, new_simulator, step, simulate}
use velo_infra_playground.Nccl.Simulator.Correct.{rounds, buffers, ring-Runs}
use velo_infra_playground.Nccl.Simulator.Settled.{
  all_done-all, Settled, new_simulator-Settled, early, moved, moved-follows, step-moved, step-over,
  simulate-Settled,
}

all_append :
    (n : ℕ) (xs ys : List ℕ)
    → All (λ i. i < n) xs
    → All (λ i. i < n) ys
    → All (λ i. i < n) (xs ++ ys)
all_append n [] ys hx hy = hy
all_append n (x ∷ xs) ys hx hy = (hx.0, all_append n xs ys hx.1 hy)

module _ {V : Type 0} (add : V → V → V) (n : ℕ) (initial : ℕ → ℕ → V) (many : 1 < n)
    (small : n < 2 ^ 61) where
  module _ (schedules : List (List ℕ)) (real : All (λ s. All (λ i. i < n) s) schedules)
      (sim : Simulator V)
      (reached : simulate add n schedules (new_simulator n initial) ≡ some sim) where
    reached-Settled :
        Settled add n initial many small sim
        × (sim.state.finished ≡ leb (2 * (n - 1)) (0 + length schedules))
    unfolding new_simulator
    reached-Settled =
        simulate-Settled add n initial many small schedules (new_simulator n initial) sim
          (new_simulator-Settled add n initial many small) real reached

    -- The simulator has ended exactly if at least 2 (n - 1) steps have returned. Every GPU then
    -- holds, of each block, the sum over all GPUs that goes round the ring from the block's own GPU,
    -- whatever the addition and however the goroutines of each step were scheduled.
    pub simulate-finished :
        (sim.state.finished ≡ leb (2 * (n - 1)) (length schedules))
        × ((sim.state.finished ≡ false)
            ⊎ Below
                (λ i.
                  (sim.net.workers i).buffer ≡ tabulate n (λ b. ring_sum add n initial b (n - 1)))
                n)
    simulate-finished =
        let (settled, ends) = reached-Settled in
        (
          ends ∙ ap (leb (2 * (n - 1))) (omega arith),
          elim (Bool-cases sim.state.finished) [
            | inr running ↦ inl running
            | inl over ↦ inr (
                Below-all _ n (λ i i_lt.
                  (settled.follows i i_lt).buffer
                  ∙ ap (λ k. buffers add n initial small k i)
                      (settled.in_step i i_lt
                        ∙ last sim.state.step (2 * (n - 1)) settled.within
                            (sym settled.ends ∙ over))
                  ∙ tabulate-ext n _ _ (λ b b_lt. value-end add n initial i b i_lt b_lt)))
          ],
        )
      where
        last : (a b : ℕ) → a ≤ b → leb b a ≡ true → a ≡ b
        last a b h e = ground arith

    -- However the goroutines of the next step have begun, a continuation of their schedule makes the
    -- step return.
    pub step-returns :
        (begun : List ℕ)
        → All (λ i. i < n) begun
        → (rest : List ℕ) × All (λ i. i < n) rest
          × (next : Simulator V) × (more : Bool) × (step add n (begun ++ rest) sim
              ≡ some (next, more))
    step-returns begun begun_real = elim (Bool-cases sim.state.finished) [
      | inl over ↦ ([], tt, sim, false, step-over add n initial many small sim (begun ++ []) over)
      | inr running ↦
          let settled = reached-Settled.0 in
          let limit = suc sim.state.step in
          let (rest, rest_real, all_over) =
            run-completes (ring add n) (rounds add n initial small) _ _
              (ring-Runs add n initial small (omega arith)) limit
              (early add n initial many small sim settled running [] tt)
              (run (ring add n) limit begun sim.net)
              (moved-follows add n initial many small sim settled running begun begun_real) in
          let real : All (λ i. i < n) (begun ++ rest) =
            all_append n begun rest begun_real rest_real in
          let net_over : Below
              (λ i. limit ≤ ((run (ring add n) limit (begun ++ rest) sim.net).workers i).done) n =
            rw (run-append (ring add n) limit begun rest sim.net) all_over in
          (
            rest,
            rest_real,
            moved add n initial many small sim settled running (begun ++ rest) real,
            _,
            step-moved add n initial many small sim settled running (begun ++ rest) real
                (all_done-all n _ _ net_over),
          )
    ]
