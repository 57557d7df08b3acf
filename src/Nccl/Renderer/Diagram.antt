-- ===== src/Nccl/Renderer/Diagram.antt =====
-- The topology diagrams (nccl-visualizer/renderer.go), which show four GPUs whatever their number.
-- A diagram is the list of the texts that the calls of `fmt` write.
use velo_infra_playground.Prelude.{
  ◌-◌, ◌/◌, List, [], ◌∷◌, ◌++◌, String, ltb, nat_eq, if◌then◌else◌,
}
use velo_infra_playground.Prelude.Text.{concat}
use velo_infra_playground.Nccl.Simulator.Types.{Topology, SimulationState}
use velo_infra_playground.Nccl.Renderer.Colors.{
  reset, bold_cyan, bold_magenta, gray, green, yellow, colored,
}

-- The color and the direction of each link of the tree.
pub record Links : Type 0 where
  pub l01 : String
  pub l02 : String
  pub l13 : String
  pub dir01 : String
  pub dir02 : String
  pub dir13 : String

abbrev pub neutral : Links
neutral = record { l01 = gray; l02 = gray; l13 = gray; dir01 = "──"; dir02 = "──"; dir13 = "──" }

-- The links that are active in the current step.
unfoldable pub tree_links : {V : Type 0} → SimulationState V → Links
tree_links state =
    let max_d = state.max_steps / 2 in
    if state.finished
    then neutral
    else if ltb state.step max_d
    then (if nat_eq (max_d - state.step) 2
        then record neutral { l13 = yellow; dir13 = "▲ " }
        else if nat_eq (max_d - state.step) 1
        then record neutral { l01 = yellow; dir01 = "▲ "; l02 = yellow; dir02 = " ▲" }
        else neutral)
    else if nat_eq (state.step - max_d) 0
    then record neutral { l01 = green; dir01 = "▼ "; l02 = green; dir02 = " ▼" }
    else if nat_eq (state.step - max_d) 1
    then record neutral { l13 = green; dir13 = "▼ " }
    else neutral

unfoldable pub draw_tree_topology : {V : Type 0} → SimulationState V → List String
unfolding tree_links
draw_tree_topology state =
    let links = tree_links state in
    "                     ┌─────────┐\n"
    ∷ concat ("                     │  " ∷ colored bold_magenta "GPU 0" ∷ "  │ (Root)\n" ∷ [])
    ∷ "                     └─────────┘\n"
    ∷ concat ("                      " ∷ links.l01 ∷ "/       \\" ∷ links.l02 ∷ "\n" ∷ [])
    ∷ concat (
        "                   " ∷ links.l01 ∷ links.dir01 ∷ "         " ∷ links.dir02 ∷ links.l02
        ∷ "\n" ∷ [])
    ∷ concat ("                    " ∷ links.l01 ∷ "/           \\" ∷ links.l02 ∷ "\n" ∷ [])
    ∷ "         ┌─────────┐             ┌─────────┐\n"
    ∷ concat (
        "         │  "
        ∷ colored bold_magenta "GPU 1"
        ∷ "  │             │  "
        ∷ colored bold_magenta "GPU 2"
        ∷ "  │ (Leaf)\n"
        ∷ [])
    ∷ "         └─────────┘             └─────────┘\n"
    ∷ concat ("          " ∷ links.l13 ∷ "/" ∷ reset ∷ "\n" ∷ [])
    ∷ concat ("       " ∷ links.l13 ∷ links.dir13 ∷ reset ∷ "\n" ∷ [])
    ∷ concat ("        " ∷ links.l13 ∷ "/" ∷ reset ∷ "\n" ∷ [])
    ∷ "   ┌─────────┐\n"
    ∷ concat ("   │  " ∷ colored bold_magenta "GPU 3" ∷ "  │ (Leaf)\n" ∷ [])
    ∷ "   └─────────┘\n"
    ∷ []

unfoldable pub draw_ring_topology : {V : Type 0} → SimulationState V → List String
draw_ring_topology state =
    let arrow_color = if state.finished then gray else green in
    "      ┌─────────┐                ┌─────────┐\n"
    ∷ concat (
        "      │  "
        ∷ colored bold_magenta "GPU 0"
        ∷ "  │  "
        ∷ colored arrow_color "────────────>"
        ∷ "  │  "
        ∷ colored bold_magenta "GPU 1"
        ∷ "  │\n"
        ∷ [])
    ∷ "      └─────────┘                └─────────┘\n"
    ∷ "           ▲                          │\n"
    ∷ concat ("           │ " ∷ arrow_color ∷ "                        │ " ∷ reset ∷ "\n" ∷ [])
    ∷ concat ("           │ " ∷ arrow_color ∷ "                        ▼ " ∷ reset ∷ "\n" ∷ [])
    ∷ "      ┌─────────┐                ┌─────────┐\n"
    ∷ concat (
        "      │  "
        ∷ colored bold_magenta "GPU 3"
        ∷ "  │  "
        ∷ colored arrow_color "<────────────"
        ∷ "  │  "
        ∷ colored bold_magenta "GPU 2"
        ∷ "  │\n"
        ∷ [])
    ∷ "      └─────────┘                └─────────┘\n"
    ∷ []

unfoldable pub draw_topology : {V : Type 0} → SimulationState V → List String
unfolding draw_ring_topology draw_tree_topology
draw_topology state =
    let drawn : List String = elim state.topology [
      | Topology.ring ↦ draw_ring_topology state
      | Topology.tree ↦ draw_tree_topology state
    ] in
    concat (colored bold_cyan "[ TOPOLOGY DIAGRAM ]" ∷ "\n" ∷ []) ∷ drawn ++ ("\n" ∷ [])
