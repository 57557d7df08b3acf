-- ===== src/Nccl/Examples.antt =====
-- The theorems on rings of three GPUs that hold whole numbers.
mod Stepped
mod Treewise
mod Drawn
mod Flown
use velo_infra_playground.Prelude.{
  nat_eq, map, ◌++◌, true, ℕ, suc, ◌+◌, ◌-◌, ◌*◌, ◌^◌, ◌<◌, ◌≤◌, ◌≡◌, ◌≢◌, ◌⊎◌, refl, List, [], ◌∷◌,
  All, Bool, true, false, Option, none, some, ltb, leb, if◌then◌else◌, length, arith,
}
use velo_infra_playground.Prelude.Int.{pos, rem, ◌+ℤ◌, ◌-ℤ◌}
use velo_infra_playground.Prelude.Text.{concat, show_int}
use velo_infra_playground.Nccl.Report.{final_report, final_banner, final_line, outcome}
use velo_infra_playground.Nccl.Report.Success.{final_report-success}
use velo_infra_playground.Prelude.Words.{add64, sub64, wrap64}
use velo_infra_playground.Nccl.Network.{Net, Action, fire, run, send_action, receive_action}
use velo_infra_playground.Nccl.Network.Below.{Below}
use velo_infra_playground.Nccl.Buffers.{tabulate, tabulate_from}
use velo_infra_playground.Nccl.AllReduce.{ring_sum}
use velo_infra_playground.Nccl.Node
use velo_infra_playground.Nccl.Node.{
  expected_sums, all_succeeded, Message, rounds, start, expected_sum,
}
use velo_infra_playground.Nccl.Node.Total.{AdditionLaws}
use velo_infra_playground.Nccl.Node.Exact.{ExactIntegers}
use velo_infra_playground.Nccl.Node.Sums.{run-expected_sum}
use velo_infra_playground.Nccl.Node.Results.{after, run-ring_sum, run-moves, run-ends, run-in_step}

abbrev pub plus : ℕ → ℕ → ℕ
plus a b = a + b

abbrev times : ℕ → ℕ → ℕ
times a b = a * b

abbrev itself : ℕ → ℕ
itself a = a

-- Node i has the numbers 1, 2 and 3, times the i-th power of ten.
abbrev scaled : ℕ → ℕ → ℕ
scaled = Node.gpu_data times itself

abbrev pub many : 1 < 3
many = omega arith

abbrev pub small : 3 < 2 ^ 61
small = omega arith

-- Rounds in which all nodes send before any receives.
abbrev pub cycle : ℕ → List ℕ
cycle ℕ.zero = []
cycle (ℕ.suc k) = 0 ∷ 1 ∷ 2 ∷ 0 ∷ 1 ∷ 2 ∷ cycle k

pub cycle-real : (k : ℕ) → All (λ i. i < 3) (cycle k)
cycle-real ℕ.zero = tt
cycle-real (ℕ.suc k) = (
  omega arith,
  (omega arith, (omega arith, (omega arith, (omega arith, (omega arith, cycle-real k))))),
)

pub plus-laws : AdditionLaws plus 0
plus-laws = record {
  assoc = λ a b c. omega arith;
  comm = λ a b. omega arith;
  zero_left = λ a. omega arith;
}

whole-Exact : ExactIntegers plus times nat_eq itself
whole-Exact = record {
  add_exact = λ a b h. refl;
  mul_exact = λ a b h q r. refl;
  same_exact = λ a h. ground arith;
}

complete :
    ((after plus 3 scaled many small (cycle 4) (cycle-real 4)).workers 1).done ≡ rounds plus 3
unfolding run fire send_action receive_action Node.send Node.receive Node.send_index
    Node.receive_index start rem add64 sub64 wrap64 ◌+ℤ◌ ◌-ℤ◌ tabulate_from
complete = refl

run-ring_sum_example :
    ((after plus 3 scaled many small (cycle 4) (cycle-real 4)).workers 1).buffer
    ≡ tabulate 3 (λ b. ring_sum plus 3 scaled b 2)
run-ring_sum_example =
    run-ring_sum plus 3 scaled many small (cycle 4) (cycle-real 4) 1 (omega arith) complete

run-expected_sum_example :
    ((after plus 3 scaled many small (cycle 4) (cycle-real 4)).workers 1).buffer
    ≡ tabulate 3 (expected_sum plus 0 scaled 3)
run-expected_sum_example =
    run-expected_sum plus times nat_eq itself whole-Exact 3 (omega arith) many (cycle 4)
      (cycle-real 4) 1 (omega arith) complete

-- The sums are those of the numbers.
sums : tabulate 3 (expected_sum plus 0 scaled 3) ≡ 111 ∷ 222 ∷ 333 ∷ []
unfolding tabulate_from expected_sum Node.gpu_data Node.scale
sums = refl

run-moves_example :
    let net = after plus 3 scaled many small (cycle 2) (cycle-real 2) in
    Below (λ i. fire (Node.ring plus 3) (rounds plus 3) i net ≢ Action.panicked) 3
    × (Below (λ i. rounds plus 3 ≤ (net.workers i).done) 3
        ⊎ ((i : ℕ) × (i < 3)
            × (next : Net ℕ (Message ℕ)) × (fire (Node.ring plus 3) (rounds plus 3) i net
                ≡ Action.moved next)))
run-moves_example = run-moves plus 3 scaled many small (cycle 2) (cycle-real 2)

run-ends_example :
    (more : List ℕ) × All (λ i. i < 3) more
    × Below
        (λ i.
          rounds plus 3
          ≤ ((run
                (Node.ring plus 3)
                (rounds plus 3)
                more
                (after plus 3 scaled many small (cycle 2) (cycle-real 2))).workers
              i).done)
        3
run-ends_example = run-ends plus 3 scaled many small (cycle 2) (cycle-real 2)

abbrev whole : Net ℕ (Message ℕ)
whole = after plus 3 scaled many small (cycle 4) (cycle-real 4)

done_of : (i : ℕ) → i < 3 → (whole.workers i).done ≡ 4
unfolding run fire send_action receive_action Node.send Node.receive Node.send_index
    Node.receive_index start rem add64 sub64 wrap64 ◌+ℤ◌ ◌-ℤ◌ tabulate_from
done_of ℕ.zero h = refl
done_of (ℕ.suc ℕ.zero) h = refl
done_of (ℕ.suc (ℕ.suc ℕ.zero)) h = refl
done_of (ℕ.suc (ℕ.suc (ℕ.suc i))) h = absurd (omega arith)

enough : (i : ℕ) → i < 3 → rounds plus 3 ≤ (whole.workers i).done
enough i h = omega (arith, done_of i h)

all_over : Below (λ i. rounds plus 3 ≤ (whole.workers i).done) 3
all_over = (enough 2 (omega arith), (enough 1 (omega arith), (enough 0 (omega arith), tt)))

final_report-success_example :
    final_report
      (λ row. concat (map (λ v. concat (show_int (pos v) ∷ " " ∷ [])) row))
      nat_eq
      3
      "9s"
      whole
      (expected_sums plus 0 scaled 3)
    ≡ final_banner "9s"
      ++ (tabulate 3 (λ i.
            final_line
              (λ row. concat (map (λ v. concat (show_int (pos v) ∷ " " ∷ [])) row))
              i
              (expected_sums plus 0 scaled 3)
              true)
          ++ (outcome true ∷ []))
final_report-success_example =
    final_report-success plus times nat_eq itself whole-Exact 3 (omega arith) many (cycle 4)
      (cycle-real 4) (λ row. concat (map (λ v. concat (show_int (pos v) ∷ " " ∷ [])) row)) "9s"
      all_over
