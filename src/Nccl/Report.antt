-- ===== src/Nccl/Report.antt =====
-- What the ring program prints outside its goroutines, and how it writes a buffer (nccl-visualizer/
-- main.go), as the list of the texts that the calls of `fmt` write. How `fmt` writes a `float64`, a
-- slice of them or a duration is a parameter.
pub mod Success
use velo_infra_playground.Prelude.{
  ℕ, suc, ◌-◌, List, [], ◌∷◌, ◌++◌, length, String, Bool, ltb, nat_eq, if◌then◌else◌,
}
use velo_infra_playground.Prelude.Int.{ℤ, pos, negsuc}
use velo_infra_playground.Prelude.Text.{concat, show_int}
use velo_infra_playground.Nccl.Network.{Net}
use velo_infra_playground.Nccl.Buffers.{tabulate}
use velo_infra_playground.Nccl.Node.{Message, row_matches, all_succeeded}

abbrev is_at : ℕ → ℤ → Bool
is_at i (pos k) = nat_eq i k
is_at i (negsuc k) = Bool.false

module _ {V : Type 0} (shown : V → String) where
  -- The loop of `formatData` from index i on, over a buffer of n entries.
  format_entries : ℕ → ℕ → ℤ → String → List V → String
  format_entries n i highlight_idx res [] = res
  format_entries n i highlight_idx res (val ∷ vals) =
      let entry =
        if is_at i highlight_idx
        then concat ("\u{1b}[4;33m" ∷ shown val ∷ "\u{1b}[0m" ∷ [])
        else shown val in
      let res' = concat (res ∷ entry ∷ (if ltb i (n - 1) then ", " else "") ∷ []) in
      format_entries n (suc i) highlight_idx res' vals

  unfoldable pub format_data : List V → ℤ → String
  unfolding format_entries
  format_data buffer highlight_idx =
      concat (format_entries (length buffer) 0 highlight_idx "[" buffer ∷ "]" ∷ [])

-- The loop over the nodes, from node i on.
loop_texts : ℕ → ℕ → List String
loop_texts i ℕ.zero = []
loop_texts i (ℕ.suc n) =
    concat ("   [GPU " ∷ show_int (pos i) ∷ "] --(NVLink)--> " ∷ []) ∷ loop_texts (suc i) n

unfoldable pub print_ring_topology : ℕ → List String
unfolding loop_texts
print_ring_topology nodes =
    let drawn =
      if nat_eq nodes 4
      then "       [GPU 0] ==========(NVLink)==========> [GPU 1]\n"
        ∷ "          ^                                     |\n"
        ∷ "          |                                     |\n"
        ∷ "       (NVLink)                              (NVLink)\n"
        ∷ "          |                                     |\n"
        ∷ "          |                                     v\n"
        ∷ "       [GPU 3] <==========(NVLink)========== [GPU 2]\n" ∷ []
      else loop_texts 0 nodes ++ ("[GPU 0] (Loop)\n" ∷ []) in
    "\u{1b}[1;35mLogical Communication Ring Topology:\u{1b}[0m\n" ∷ drawn ++ ("\n" ∷ [])

abbrev double_rule : String
double_rule = "\u{1b}[1;36m====================================================\u{1b}[0m\n"

abbrev opening : ℕ → ℤ → List String
opening n delay_ms =
    double_rule
    ∷ "\u{1b}[1;36m   NVIDIA NCCL Ring-AllReduce Simulator (macOS M3)   \u{1b}[0m\n"
    ∷ double_rule
    ∷ concat ("Nodes (GPUs): " ∷ show_int (pos n) ∷ "\n" ∷ [])
    ∷ concat ("Simulated Interconnect Latency: " ∷ show_int delay_ms ∷ "ms\n\n" ∷ [])
    ∷ []

abbrev pub final_banner : String → List String
final_banner duration =
    concat ("\n" ∷ double_rule ∷ [])
    ∷ "\u{1b}[1;36m                Simulation Completed                \u{1b}[0m\n"
    ∷ double_rule
    ∷ concat ("Total execution time: " ∷ duration ∷ "\n\n" ∷ [])
    ∷ "\u{1b}[1;33mFinal GPU States:\u{1b}[0m\n"
    ∷ []

abbrev pub outcome : Bool → String
outcome succeeded =
    if succeeded
    then "\n\u{1b}[1;32mRing-AllReduce finished successfully! All nodes synchronized perfectly.\u{1b}[0m\n"
    else "\n\u{1b}[1;31mRing-AllReduce verification failed. Data mismatch found.\u{1b}[0m\n"

module _ {V : Type 0} (shown_row : List V → String) where
  -- The states that the nodes begin with, the sums that they should come to, and the ring.
  unfoldable pub initial_states : ℕ → (ℕ → ℕ → V) → List V → List String
  initial_states n initial expected =
      "\u{1b}[1;33mInitial GPU States:\u{1b}[0m\n"
        ∷ tabulate n (λ i.
          concat
            ("  GPU " ∷ show_int (pos i) ∷ ": " ∷ shown_row (tabulate n (initial i)) ∷ "\n" ∷ []))
      ++ (concat ("  Expected Target Sum Array: " ∷ shown_row expected ∷ "\n\n" ∷ [])
          ∷ print_ring_topology n)

  -- What comes before the goroutines start; a ring of less than two nodes is refused.
  unfoldable pub initial_report : ℕ → ℤ → (ℕ → ℕ → V) → List V → List String
  unfolding initial_states
  initial_report n delay_ms initial expected =
      if ltb n 2
      then "Error: Ring topology requires at least 2 nodes.\n" ∷ []
      else opening n delay_ms ++ initial_states n initial expected

  -- The line of a node at the end, by whether its buffer is the expected one.
  abbrev pub final_line : ℕ → List V → Bool → String
  final_line i buffer match = concat (
      "  GPU "
      ∷ show_int (pos i)
      ∷ ": "
      ∷ shown_row buffer
      ∷ " ["
      ∷ (if match then "\u{1b}[32mSUCCESS\u{1b}[0m" else "\u{1b}[31mFAILED\u{1b}[0m")
      ∷ "]\n"
      ∷ [])

  -- What comes after the goroutines have ended.
  unfoldable pub final_report :
      (V → V → Bool) → ℕ → String → Net V (Message V) → List V → List String
  final_report same n duration net expected =
      final_banner duration
      ++ (tabulate n (λ i.
            final_line i (net.workers i).buffer
              (row_matches same (net.workers i).buffer expected n))
          ++ (outcome (all_succeeded same n net expected n) ∷ []))
