-- ===== src/Nccl/Report/Success.antt =====
-- What the ring program reports at its end, when its nodes are fewer than sixteen.
use velo_infra_playground.Prelude.{
  ℕ, ◌<◌, ◌≤◌, ◌≡◌, refl, ap, List, [], ◌∷◌, ◌++◌, All, String, Bool, true,
}
use velo_infra_playground.Nccl.Network.Below.{Below}
use velo_infra_playground.Nccl.Buffers.{tabulate, tabulate-ext}
use velo_infra_playground.Nccl.Node.{gpu_data, expected_sums, rounds}
use velo_infra_playground.Nccl.Node.Exact.{ExactIntegers}
use velo_infra_playground.Nccl.Node.Results.{after, ended}
use velo_infra_playground.Nccl.Node.Sums.{
  few_small, run-expected_sum, row_matches-expected_sums, run-succeeds,
}
use velo_infra_playground.Nccl.Report.{final_report, final_banner, final_line, outcome}

module _ {V : Type 0} (add mul : V → V → V) (same : V → V → Bool) (of_int : ℕ → V)
    (exact : ExactIntegers add mul same of_int) (n : ℕ) (few : n < 16) (many : 1 < n)
    (schedule : List ℕ) (real : All (λ i. i < n) schedule) where
  -- Once every node of a ring of 2 to 15 nodes has ended, that began with the program's data, the
  -- final report shows every node with the expected sums and as a success, and says that all have
  -- succeeded, if the arithmetic is exact on whole numbers up to 2^53 and these compare equal to
  -- themselves.
  pub final_report-success :
      (shown_row : List V → String) (duration : String)
      → let net = after add n (gpu_data mul of_int) many (few_small n few) schedule real in
        Below (λ i. rounds add n ≤ (net.workers i).done) n
        → final_report shown_row same n duration net
            (expected_sums add (of_int 0) (gpu_data mul of_int) n)
          ≡ final_banner duration
            ++ (tabulate n (λ i.
                  final_line shown_row i
                    (expected_sums add (of_int 0) (gpu_data mul of_int) n)
                    true)
                ++ (outcome true ∷ []))
  unfolding final_report
  final_report-success shown_row duration over =
      rw (run-succeeds add mul same of_int exact n few many schedule real over) (
        ap (λ (rows : List String). final_banner duration ++ (rows ++ (outcome true ∷ [])))
          (tabulate-ext n _ _ (λ i i_lt.
            rw
              (run-expected_sum add mul same of_int exact n few many schedule real i i_lt (
                ended add n (gpu_data mul of_int) many (few_small n few) schedule real i i_lt over))
              (rw (row_matches-expected_sums add mul same of_int exact n few) refl))))
