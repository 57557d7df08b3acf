-- ===== src/Nccl/Node/Sums.antt =====
-- What the nodes hold at the end, when they began with the program's own data and are fewer than
-- sixteen: the expected sums, so that the last check succeeds.
use velo_infra_playground.Prelude.{Bool, true, ℕ, ◌^◌, ◌≤◌, ◌<◌, ◌≡◌, refl, ◌∙◌, List, All, arith}
use velo_infra_playground.Nccl.Network.Below.{Below}
use velo_infra_playground.Nccl.Buffers.{load-tabulate, tabulate, tabulate-ext}
use velo_infra_playground.Nccl.Node.{
  expected_sums, row_matches, all_succeeded, rounds, expected_sum, gpu_data,
}
use velo_infra_playground.Nccl.Node.Exact.{ExactIntegers, sums-agree, same-expected_sum}
use velo_infra_playground.Nccl.Node.Results.{after, ended, run-ring_sum}

-- Few nodes are within what the ring's indices can tell apart.
pub few_small : (n : ℕ) → n < 16 → n < 2 ^ 61
few_small n h = omega arith

-- A buffer matches itself where every entry compares equal to itself.
row_matches_self :
    {V : Type 0} (same : V → V → Bool) (n : ℕ) (f : ℕ → V) (j : ℕ)
    → j ≤ n
    → ((b : ℕ) → b < n → same (f b) (f b) ≡ true)
    → row_matches same (tabulate n f) (tabulate n f) j ≡ true
unfolding row_matches
row_matches_self same n f ℕ.zero h alike = refl
row_matches_self same n f (ℕ.suc j) h alike =
    rw (load-tabulate n j f (omega arith), row_matches)
      (rw (load-tabulate n j f (omega arith))
        (rw (alike j (omega arith)) (row_matches_self same n f j (omega arith) alike)))

module _ {V : Type 0} (add mul : V → V → V) (same : V → V → Bool) (of_int : ℕ → V)
    (exact : ExactIntegers add mul same of_int) (n : ℕ) (few : n < 16) where
  -- The expected sums match themselves.
  pub row_matches-expected_sums :
      row_matches same
        (expected_sums add (of_int 0) (gpu_data mul of_int) n)
        (expected_sums add (of_int 0) (gpu_data mul of_int) n)
        n
      ≡ true
  row_matches-expected_sums =
      row_matches_self same n (expected_sum add (of_int 0) (gpu_data mul of_int) n) n (omega arith)
        (same-expected_sum add mul same of_int exact n few)

  module _ (many : 1 < n) (schedule : List ℕ) (real : All (λ i. i < n) schedule) where
    -- In a ring of 2 to 15 nodes that began with the program's data, a node that has ended holds the
    -- sums that the program expects, however the nodes were scheduled, if the arithmetic is exact on
    -- whole numbers up to 2^53.
    pub run-expected_sum :
        (i : ℕ)
        → i < n
        → ((after add n (gpu_data mul of_int) many (few_small n few) schedule real).workers i).done
          ≡ rounds add n
        → ((after add n (gpu_data mul of_int) many (few_small n few) schedule real).workers
            i).buffer
          ≡ expected_sums add (of_int 0) (gpu_data mul of_int) n
    run-expected_sum i i_lt over =
        run-ring_sum add n (gpu_data mul of_int) many (few_small n few) schedule real i i_lt over
        ∙ tabulate-ext n _ _ (λ b b_lt. sums-agree add mul same of_int exact n few b b_lt)

    rows_match :
        (i : ℕ)
        → i ≤ n
        → Below
            (λ j.
              rounds add n
              ≤ ((after add n (gpu_data mul of_int) many (few_small n few) schedule real).workers
                  j).done)
            n
        → all_succeeded same n
            (after add n (gpu_data mul of_int) many (few_small n few) schedule real)
            (expected_sums add (of_int 0) (gpu_data mul of_int) n)
            i
          ≡ true
    unfolding all_succeeded
    rows_match ℕ.zero h over = refl
    rows_match (ℕ.suc i) h over =
        rw
          (
            run-expected_sum i (omega arith) (
                ended add n (gpu_data mul of_int) many (few_small n few) schedule real i
                  (omega arith) over),
            all_succeeded,
          )
          (rw row_matches-expected_sums (rows_match i (omega arith) over))

    -- Then the program finds that all nodes have succeeded.
    pub run-succeeds :
        Below
          (λ j.
            rounds add n
            ≤ ((after add n (gpu_data mul of_int) many (few_small n few) schedule real).workers
                j).done)
          n
        → all_succeeded same n
            (after add n (gpu_data mul of_int) many (few_small n few) schedule real)
            (expected_sums add (of_int 0) (gpu_data mul of_int) n)
            n
          ≡ true
    run-succeeds over = rows_match n (omega arith) over
