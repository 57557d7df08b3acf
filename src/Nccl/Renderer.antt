-- ===== src/Nccl/Renderer.antt =====
-- The dashboard (nccl-visualizer/renderer.go): its header and controls, and `RenderDashboard`, which
-- puts the panels together. A panel is the list of the texts that the calls of `fmt` write, and
-- `none` a panic.
pub mod Colors
pub mod Diagram
pub mod Console
pub mod Table
pub mod Recent
pub mod Links
pub mod Panels
pub mod Returns
use velo_infra_playground.Prelude.{
  ℕ, ◌-◌, List, [], ◌∷◌, ◌++◌, String, Bool, Option, none, some, ltb, if◌then◌else◌,
}
use velo_infra_playground.Prelude.Int.{ℤ, pos, negsuc}
use velo_infra_playground.Prelude.Words.{sub64}
use velo_infra_playground.Prelude.Text.{concat, show_int}
use velo_infra_playground.Prelude.Text.Layout.{pad, repeat}
use velo_infra_playground.Nccl.Simulator.Types.{Topology, SimulationState}
use velo_infra_playground.Nccl.Simulator.Logs.{ShownState, phase_text}
use Colors.{reset, bold, bold_green, bold_yellow, bold_red, cyan, green, colored}
use Diagram.{draw_topology}
use Console.{draw_logs}
use Table.{draw_buffer_states}

-- `strings.Repeat(s, n)` of an `int`, which panics where that is negative.
abbrev pub repeat? : String → ℤ → Option String
repeat? s (pos n) = some (repeat s n)
repeat? s (negsuc n) = none

-- The bar with so many of its 30 places filled.
unfoldable pub bar_of : ℤ → Option String
bar_of filled = elim (repeat? "█" filled) [
  | none ↦ none
  | some full ↦ elim (repeat? "░" (sub64 (pos 30) filled)) [
    | none ↦ none
    | some empty ↦ some (concat (full ∷ empty ∷ []))
  ]
]

-- `filled_of step max` is Go's `int(float64(step) / float64(max) * float64(30))`.
unfoldable pub progress_bar : (ℕ → ℕ → ℤ) → ℕ → ℕ → Option String
unfolding bar_of
progress_bar filled_of step max_steps =
    let bar = bar_of (filled_of step max_steps) in
    if ltb 0 max_steps then bar else some (repeat "░" 30)

abbrev pub topology_text : Topology → String
topology_text Topology.ring = "Ring"
topology_text Topology.tree = "Tree"

unfoldable pub draw_header : {V : Type 0} → (ℕ → ℕ → ℤ) → SimulationState V → Option (List String)
unfolding progress_bar
draw_header filled_of state = elim (progress_bar filled_of state.step state.max_steps) [
  | none ↦ none
  | some bar ↦ some (
      concat (
        bold ∷ "\u{1b}[44m\u{1b}[37m" ∷ "  NCCL COLLECTIVE COMMUNICATION SIMULATOR  " ∷ reset ∷ "\n"
        ∷ [])
      ∷ concat (repeat "─" 70 ∷ "\n" ∷ [])
      ∷ concat (
          colored bold "Topology:"
          ∷ " "
          ∷ pad 12 (topology_text state.topology)
          ∷ " | "
          ∷ colored bold "Phase:"
          ∷ " "
          ∷ pad 20 (phase_text state.phase)
          ∷ " | "
          ∷ colored bold "Status:"
          ∷ " "
          ∷ (if state.finished then colored cyan "COMPLETED" else colored green "RUNNING")
          ∷ "\n"
          ∷ [])
      ∷ concat (
          colored bold "Step:"
          ∷ " "
          ∷ show_int (pos state.step)
          ∷ "/"
          ∷ show_int (pos state.max_steps)
          ∷ " "
          ∷ colored cyan bar
          ∷ "\n"
          ∷ [])
      ∷ concat (repeat "─" 70 ∷ "\n" ∷ [])
      ∷ [])
]

unfoldable pub draw_controls : {V : Type 0} → SimulationState V → List String
draw_controls state =
    if state.finished
    then concat (colored bold_green "Simulation Finished Successfully!" ∷ "\n" ∷ [])
      ∷ concat (
          "Press "
          ∷ colored bold_yellow "[r]"
          ∷ " to restart or "
          ∷ colored bold_red "[q]"
          ∷ " to exit.\n"
          ∷ [])
      ∷ []
    else concat (
        "Controls: "
        ∷ colored bold_green "[Space/Enter]"
        ∷ " Step | "
        ∷ colored bold_yellow "[a]"
        ∷ " Auto ("
        ∷ "500ms delay"
        ∷ ") | "
        ∷ colored bold_red "[q]"
        ∷ " Quit\n"
        ∷ [])
      ∷ []

abbrev pub clear_screen : String
clear_screen = "\u{1b}[H\u{1b}[2J"

unfoldable pub render_dashboard :
    {V : Type 0} → (ℕ → ℕ → ℤ) → (V → String) → (V → V → Bool) → ShownState V → Option (List String)
unfolding draw_header draw_topology draw_buffer_states draw_logs draw_controls
render_dashboard filled_of shown differs view = elim (draw_header filled_of view.state) [
  | none ↦ none
  | some header ↦ elim (draw_buffer_states shown differs view) [
    | none ↦ none
    | some table ↦ elim (draw_logs view.logs) [
      | none ↦ none
      | some console ↦ some (
          clear_screen ∷ header
          ++ (draw_topology view.state ++ (table ++ (console ++ draw_controls view.state))))
    ]
  ]
]
