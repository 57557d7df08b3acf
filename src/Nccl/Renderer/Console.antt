-- ===== src/Nccl/Renderer/Console.antt =====
-- The event console (nccl-visualizer/renderer.go): `DrawLogs`. The console is the list of the texts
-- that the calls of `fmt` write.
use velo_infra_playground.Prelude.{
  ℕ, suc, ◌-◌, List, [], ◌∷◌, ◌++◌, length, get_elem?, String, ◌||◌, Option, none, some,
  if◌then◌else◌,
}
use velo_infra_playground.Prelude.Int.{pos}
use velo_infra_playground.Prelude.Text.{concat, contains, show_int}
use velo_infra_playground.Prelude.Text.Layout.{repeat}
use velo_infra_playground.Nccl.Simulator.Logs.{SimLog, phase_text}
use velo_infra_playground.Nccl.Renderer.Colors.{reset, bold_cyan, gray, green, red, colored}

unfoldable pub log_color : SimLog → String
log_color log =
    if log.is_warning
    then red
    else if contains log.message "received"
        || contains log.message "reduced"
        || contains log.message "updated"
    then green
    else reset

unfoldable pub log_line : SimLog → String
unfolding log_color
log_line log = concat (
    gray
    ∷ "[Step "
    ∷ show_int (pos log.step)
    ∷ " "
    ∷ phase_text log.phase
    ∷ "] "
    ∷ log_color log
    ∷ log.message
    ∷ "\n"
    ∷ [])

-- The loop over `state.Logs[i]`, for k indices from i on; `none` is the panic of an index out of
-- range.
unfoldable pub log_lines : List SimLog → ℕ → ℕ → Option (List String)
unfolding log_line
log_lines logs i ℕ.zero = some []
log_lines logs i (ℕ.suc k) = elim (get_elem? logs i) [
  | none ↦ none
  | some log ↦ elim (log_lines logs (suc i) k) [
    | none ↦ none
    | some rest ↦ some (log_line log ∷ rest)
  ]
]

-- So many blank lines.
unfoldable pub blank_lines : ℕ → List String
blank_lines ℕ.zero = []
blank_lines (ℕ.suc k) = "\n" ∷ blank_lines k

-- The start index is 0 where the log has less than five entries, as the subtraction is here.
unfoldable pub draw_logs : List SimLog → Option (List String)
unfolding log_lines blank_lines
draw_logs logs =
    let start_idx = length logs - 5 in
    elim (log_lines logs start_idx (length logs - start_idx)) [
      | none ↦ none
      | some lines ↦ some (
          concat (colored bold_cyan "[ EVENT CONSOLE LOG ]" ∷ "\n" ∷ []) ∷ lines
          ++ (blank_lines (5 - (length logs - start_idx))
              ++ (concat (repeat "─" 70 ∷ "\n" ∷ []) ∷ [])))
    ]
