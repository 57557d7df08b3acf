-- ===== src/Nccl/Renderer/Recent.antt =====
-- What the event console shows of the log.
use velo_infra_playground.Prelude.{
  ℕ, suc, ◌+◌, ◌-◌, ◌≤◌, ◌≡◌, refl, sym, ap, subst, ◌∙◌, List, [], ◌∷◌, ◌++◌, map, length,
  length-map, length-append, String, Option-cases, get_elem?, inl, inr, some, leb, if◌then◌else◌,
  arith,
}
use velo_infra_playground.Prelude.Text.{concat}
use velo_infra_playground.Prelude.Text.Layout.{repeat}
use velo_infra_playground.Nccl.Simulator.Logs.{SimLog}
use velo_infra_playground.Nccl.Renderer.Colors.{bold_cyan, colored}
use velo_infra_playground.Nccl.Renderer.Console.{log_line, log_lines, blank_lines, draw_logs}

-- The first n entries and the others.
split_at :
    {A : Type 0} (n : ℕ) (xs : List A)
    → n ≤ length xs
    → (before after : List A) × (before ++ after ≡ xs) × (length before ≡ n)
split_at ℕ.zero xs h = ([], xs, refl, refl)
split_at (ℕ.suc n) [] h = absurd (omega arith)
split_at (ℕ.suc n) (x ∷ xs) h =
    let (before, after, whole, long) = split_at n xs (omega arith) in
    (x ∷ before, after, ap (λ l. x ∷ l) whole, ap suc long)

log_lines-cons :
    (log : SimLog) (logs : List SimLog) (i k : ℕ)
    → log_lines (log ∷ logs) (suc i) k ≡ log_lines logs i k
unfolding log_lines
log_lines-cons log logs i ℕ.zero = refl
log_lines-cons log logs i (ℕ.suc k) = elim (Option-cases (get_elem? logs i)) [
  | inl missing ↦ rw (missing, log_lines) refl
  | inr (found, e) ↦ rw (e, log_lines) (rw (log_lines-cons log logs (suc i) k) refl)
]

log_lines-all : (logs : List SimLog) → log_lines logs 0 (length logs) ≡ some (map log_line logs)
unfolding log_lines
log_lines-all [] = refl
log_lines-all (log ∷ logs) =
    rw (log_lines-cons log logs 0 (length logs), log_lines-all logs, log_lines) refl

log_lines-after :
    (before after : List SimLog)
    → log_lines (before ++ after) (length before) (length after) ≡ some (map log_line after)
log_lines-after [] after = log_lines-all after
log_lines-after (log ∷ before) after =
    log_lines-cons log (before ++ after) (length before) (length after)
    ∙ log_lines-after before after

length-blank_lines : (k : ℕ) → length (blank_lines k) ≡ k
unfolding blank_lines
length-blank_lines ℕ.zero = refl
length-blank_lines (ℕ.suc k) = ap suc (length-blank_lines k)

-- The console shows the last five entries of the log, or all if there are fewer, each as its line
-- and in their order, and then blank lines; with its title and its rule it always has seven lines.
pub draw_logs-recent :
    (logs : List SimLog)
    → (before recent : List SimLog) × (panel : List String) × (before ++ recent ≡ logs)
      × (length recent ≡ (if leb 5 (length logs) then 5 else length logs))
      × (draw_logs logs ≡ some panel)
      × (panel
          ≡ concat (colored bold_cyan "[ EVENT CONSOLE LOG ]" ∷ "\n" ∷ []) ∷ map log_line recent
            ++ (blank_lines (5 - length recent) ++ (concat (repeat "─" 70 ∷ "\n" ∷ []) ∷ [])))
      × (length panel ≡ 7)
unfolding draw_logs
draw_logs-recent logs =
    let (before, recent, whole, long) = split_at (length logs - 5) logs (omega arith) in
    let total : length before + length recent ≡ length logs =
      sym (length-append before recent) ∙ ap length whole in
    let shown : length logs - (length logs - 5) ≡ length recent = omega arith in
    let lines = window logs before recent _ _ whole (sym long) shown in
    (
      before,
      recent,
      _,
      whole,
      ground arith,
      rw (lines, shown, draw_logs) refl,
      refl,
      ap suc (
          length-append (map log_line recent) _
          ∙ ap (λ k. length (map log_line recent) + k)
              (length-append (blank_lines (5 - length recent)) _)
          ∙ omega (arith, length-map log_line recent, length-blank_lines (5 - length recent))),
    )
  where
    window :
        (logs before recent : List SimLog) (i k : ℕ)
        → before ++ recent ≡ logs
        → i ≡ length before
        → k ≡ length recent
        → log_lines logs i k ≡ some (map log_line recent)
    window logs before recent i k whole at_i at_k =
        rw (at_i, at_k)
          (subst (λ l. log_lines l (length before) (length recent) ≡ some (map log_line recent))
            whole (log_lines-after before recent))
