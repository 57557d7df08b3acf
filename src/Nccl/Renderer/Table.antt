-- ===== src/Nccl/Renderer/Table.antt =====
-- The table of the buffers (nccl-visualizer/renderer.go): `DrawBufferStates`. The table is the list
-- of the texts that the calls of `fmt` write. How `fmt` writes a `float64` and whether two differ
-- are parameters.
use velo_infra_playground.Prelude.{
  ℕ, suc, ◌-◌, ◌/◌, List, [], ◌∷◌, ◌++◌, get_elem?, String, Bool, true, false, not, ◌&&◌, Option,
  none, some, ltb, leb, nat_eq, if◌then◌else◌,
}
use velo_infra_playground.Prelude.Int.{ℤ, pos, negsuc}
use velo_infra_playground.Prelude.Text.{concat, show_int}
use velo_infra_playground.Prelude.Text.Layout.{pad, join, repeat}
use velo_infra_playground.Nccl.Simulator.Types.{Topology, Status, GpuState, SimulationState}
use velo_infra_playground.Nccl.Simulator.Logs.{ShownState, status_text}
use velo_infra_playground.Nccl.Renderer.Colors.{
  reset, bold, bold_cyan, dim, cyan, green, yellow, colored,
}

abbrev pub status_color : Status → String
status_color Status.idle = dim
status_color Status.sending = yellow
status_color Status.receiving = green
status_color Status.broadcasting = yellow
status_color Status.reduce_scatter = yellow
status_color Status.all_gather = green
status_color Status.done = cyan

-- Whether an index is the active one; `none` is the source's -1.
unfoldable pub is_active : ℕ → Option ℤ → Bool
is_active idx none = false
is_active idx (some (pos k)) = nat_eq idx k
is_active idx (some (negsuc k)) = false

abbrev pub is_ring : Topology → Bool
is_ring Topology.ring = true
is_ring Topology.tree = false

module _ {V : Type 0} (shown : V → String) (differs : V → V → Bool) where
  -- What stands in the table for the value at an index; `none` is the panic of `InitialBuffer[idx]`
  -- out of range.
  unfoldable pub value_part : SimulationState V → GpuState V → List V → ℕ → V → Option String
  unfolding is_active
  value_part state gpu initial idx val =
      if is_ring state.topology && not state.finished && is_active idx gpu.active_block_idx
      then some (
          if ltb state.step (state.num_gpus - 1)
          then colored yellow (shown val)
          else colored green (shown val))
      else elim (get_elem? initial idx) [
        | none ↦ none
        | some init ↦ some (
            if differs val init
            then (if state.finished
                then colored cyan (shown val)
                else if leb (state.max_steps / 2) state.step
                then colored green (shown val)
                else colored yellow (shown val))
            else shown val)
      ]

  -- The loop over the values of a buffer from index idx on.
  unfoldable pub buffer_parts :
      SimulationState V → GpuState V → List V → ℕ → List V → Option (List String)
  unfolding value_part
  buffer_parts state gpu initial idx [] = some []
  buffer_parts state gpu initial idx (val ∷ vals) =
      let rest = buffer_parts state gpu initial (suc idx) vals in
      elim (value_part state gpu initial idx val) [
        | none ↦ none
        | some text ↦ elim rest [ none ↦ none | some texts ↦ some (text ∷ texts) ]
      ]

  unfoldable pub gpu_row : SimulationState V → (ℕ → List V) → GpuState V → Option String
  unfolding buffer_parts
  gpu_row state initial_buffers gpu =
      elim (buffer_parts state gpu (initial_buffers gpu.id) 0 gpu.buffer) [
        | none ↦ none
        | some parts ↦ some (
            concat (
              "GPU "
              ∷ pad 4 (show_int (pos gpu.id))
              ∷ " | "
              ∷ status_color gpu.status
              ∷ pad 12 (status_text gpu.status)
              ∷ reset
              ∷ " | "
              ∷ "["
              ∷ join ", " parts
              ∷ "]"
              ∷ "\n"
              ∷ []))
      ]

  unfoldable pub gpu_rows :
      SimulationState V → (ℕ → List V) → List (GpuState V) → Option (List String)
  unfolding gpu_row
  gpu_rows state initial_buffers [] = some []
  gpu_rows state initial_buffers (gpu ∷ gpus) =
      let rest = gpu_rows state initial_buffers gpus in
      elim (gpu_row state initial_buffers gpu) [
        | none ↦ none
        | some row ↦ elim rest [ none ↦ none | some rows ↦ some (row ∷ rows) ]
      ]

  unfoldable pub draw_buffer_states : ShownState V → Option (List String)
  unfolding gpu_rows
  draw_buffer_states view = elim (gpu_rows view.state view.initial_buffers view.state.gpus) [
    | none ↦ none
    | some rows ↦ some (
        concat (colored bold_cyan "[ BUFFER STATE TABLE ]" ∷ "\n" ∷ [])
          ∷ concat (
              bold
              ∷ pad 8 "GPU ID"
              ∷ " | "
              ∷ pad 12 "STATUS"
              ∷ " | "
              ∷ pad 30 "BUFFER (BLOCKS 0-3)"
              ∷ reset
              ∷ "\n"
              ∷ [])
          ∷ concat (repeat "─" 70 ∷ "\n" ∷ [])
          ∷ rows
        ++ (concat (repeat "─" 70 ∷ "\n" ∷ []) ∷ []))
  ]
