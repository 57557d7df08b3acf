-- ===== src/Nccl/Examples/Drawn.antt =====
-- The theorems on the dashboard, for four GPUs with whole numbers.
use native.Mathlib.Nat.{div-le_of_le-mul}
use velo_infra_playground.Prelude.{
  ℕ, ◌+◌, ◌-◌, ◌*◌, ◌/◌, ◌≡◌, refl, List, [], ◌∷◌, ◌++◌, map, length, String, false, not, Option,
  none, some, nat_eq, arith,
}
use velo_infra_playground.Prelude.Int.{ℤ, pos}
use velo_infra_playground.Prelude.Text.{concat, show_int}
use velo_infra_playground.Prelude.Text.Layout.{repeat}
use velo_infra_playground.Nccl.Buffers.{tabulate, tabulate_from}
use velo_infra_playground.Nccl.Examples.{plus}
use velo_infra_playground.Nccl.Simulator.Types.{Phase}
use velo_infra_playground.Nccl.Simulator.Logs.{SimLog, tree_sent_text}
use velo_infra_playground.Nccl.Simulator.Tree.Run.{
  TreeSimulator, new_tree_simulator, simulate_tree, tree_step, tree_receives, incoming, tree_sends,
  addressed, to_parent, all_received, update_tree_state, expected_count, reduce_all, reduce_values,
}
use velo_infra_playground.Nccl.Simulator.Tree.{
  depths, compute_depth, each, visit, children_upto, parent_of, tree_gpu,
}
use velo_infra_playground.Nccl.Simulator.Simulated.{Simulated}
use velo_infra_playground.Nccl.Renderer.{render_dashboard}
use velo_infra_playground.Nccl.Renderer.Colors.{colored, bold_cyan}
use velo_infra_playground.Nccl.Renderer.Diagram.{tree_links}
use velo_infra_playground.Nccl.Renderer.Console.{log_line, blank_lines, draw_logs}
use velo_infra_playground.Nccl.Renderer.Links.{sent_links, tree_links-sent_links}
use velo_infra_playground.Nccl.Renderer.Recent.{draw_logs-recent}
use velo_infra_playground.Nccl.Renderer.Panels.{Fills}
use velo_infra_playground.Nccl.Renderer.Returns.{height, render_dashboard-Simulated}

abbrev entry : ℕ → SimLog
entry k = record {
  step = k;
  phase = Phase.upward_reduce;
  message = tree_sent_text 3 2 1;
  is_warning = false;
}

abbrev six_logs : List SimLog
six_logs = entry 0 ∷ entry 1 ∷ entry 2 ∷ entry 3 ∷ entry 4 ∷ entry 5 ∷ []

draw_logs-recent_example :
    (before recent : List SimLog) × (panel : List String) × (before ++ recent ≡ six_logs)
    × (length recent ≡ 5)
    × (draw_logs six_logs ≡ some panel)
    × (panel
        ≡ concat (colored bold_cyan "[ EVENT CONSOLE LOG ]" ∷ "\n" ∷ []) ∷ map log_line recent
          ++ (blank_lines (5 - length recent) ++ (concat (repeat "─" 70 ∷ "\n" ∷ []) ∷ [])))
    × (length panel ≡ 7)
draw_logs-recent_example = draw_logs-recent six_logs

abbrev filled : ℕ → ℕ → ℕ
filled i j = (i + 1) * 10 + (j + 1)

abbrev start : TreeSimulator ℕ
start = new_tree_simulator 4 filled

abbrev orders : ℕ → List ℕ
orders i = 0 ∷ 1 ∷ 2 ∷ 3 ∷ []

abbrev one_step : List (ℕ → List ℕ)
one_step = orders ∷ []

abbrev or_start : Option (TreeSimulator ℕ) → TreeSimulator ℕ
or_start none = start
or_start (some sim) = sim

abbrev after_step : TreeSimulator ℕ
after_step = or_start (simulate_tree plus 4 one_step start)

reached : simulate_tree plus 4 one_step start ≡ some after_step
unfolding simulate_tree tree_step tree_receives incoming tree_sends addressed to_parent all_received
    update_tree_state new_tree_simulator expected_count reduce_all reduce_values depths
    children_upto parent_of tree_gpu compute_depth each visit tabulate_from
reached = refl

tree_links-sent_links_example :
    tree_links after_step.state ≡ sent_links after_step.state.step after_step.buffers
tree_links-sent_links_example = tree_links-sent_links plus filled one_step after_step reached

abbrev thirtieths : ℕ → ℕ → ℤ
thirtieths step max = pos (step * 30 / max)

thirtieths-Fills : Fills thirtieths
thirtieths-Fills step max within some_steps =
    (step * 30 / max, refl, div-le_of_le-mul max (omega arith))

render_dashboard-Simulated_example :
    (screen : List String) × (render_dashboard thirtieths
        (λ v. show_int (pos v))
        (λ a b. not (nat_eq a b))
        (record {
          state = after_step.state;
          initial_buffers = λ i. tabulate 4 (filled i);
          logs = six_logs;
        })
      ≡ some screen)
    × (length screen ≡ height 4 after_step.state)
render_dashboard-Simulated_example =
    render_dashboard-Simulated plus 4 (omega arith) (omega arith) filled thirtieths thirtieths-Fills
      (λ v. show_int (pos v)) (λ a b. not (nat_eq a b)) after_step.state
      (Simulated.of_tree one_step after_step reached) six_logs
