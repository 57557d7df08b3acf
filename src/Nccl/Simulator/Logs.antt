-- ===== src/Nccl/Simulator/Logs.antt =====
-- The log of the simulator (nccl-visualizer/simulator.go and types.go): `Log`, the messages of the
-- GPUs' goroutines, `GetState`, and `FormatBuffer`. How `fmt` writes a `float64` is a parameter.
use velo_infra_playground.Prelude.{
  ℕ, suc, ◌-◌, ◌%◌, List, [], ◌∷◌, ◌++◌, Bool, String, ltb, if◌then◌else◌,
}
use velo_infra_playground.Prelude.Int.{ℤ, pos}
use velo_infra_playground.Prelude.Text.{concat, show_int}
use velo_infra_playground.Nccl.Simulator.Types.{Phase, Status, BlockMsg, SimulationState}
use velo_infra_playground.Nccl.Simulator.{send_block_idx}

abbrev pub phase_text : Phase → String
phase_text Phase.none_yet = ""
phase_text Phase.reduce_scatter = "Reduce-Scatter"
phase_text Phase.all_gather = "All-Gather"
phase_text Phase.upward_reduce = "Upward-Reduce"
phase_text Phase.downward_broadcast = "Downward-Broadcast"
phase_text Phase.completed = "Completed"

abbrev pub status_text : Status → String
status_text Status.idle = "Idle"
status_text Status.sending = "Sending"
status_text Status.receiving = "Receiving"
status_text Status.broadcasting = "Broadcasting"
status_text Status.reduce_scatter = "Reduce-Scatter"
status_text Status.all_gather = "All-Gather"
status_text Status.done = "Done"

pub record SimLog : Type 0 where
  pub step : ℕ
  pub phase : Phase
  pub message : String
  pub is_warning : Bool

-- What the display gets: the state, with the buffers that the GPUs began with, and the log.
pub record ShownState (V : Type 0) : Type 0 where
  pub state : SimulationState V
  pub initial_buffers : ℕ → List V
  pub logs : List SimLog

-- `Log`.
unfoldable pub log : {V : Type 0} → String → Bool → ShownState V → ShownState V
log msg is_warning view = record view {
  logs =
      view.logs
      ++ (record {
        step = view.state.step;
        phase = view.state.phase;
        message = msg;
        is_warning = is_warning;
      }
          ∷ []);
}

abbrev number : ℕ → String
number i = show_int (pos i)

module _ {V : Type 0} (shown : V → String) where
  -- After a GPU of a ring of n has sent a block.
  unfoldable pub ring_sent_text : ℕ → ℕ → ℕ → V → String
  ring_sent_text n id step value = concat (
      "GPU "
      ∷ number id
      ∷ (if ltb step (n - 1) then " sent Block " else " gathered Block ")
      ∷ show_int (send_block_idx n id step)
      ∷ " (val "
      ∷ shown value
      ∷ ") to GPU "
      ∷ number (suc id % n)
      ∷ [])

  -- After it has received one: `old` was its own value, `value` is the message's and `new` what it
  -- holds now.
  unfoldable pub ring_received_text : ℕ → ℕ → ℕ → BlockMsg V → V → V → V → String
  ring_received_text n id step msg old value new =
      if ltb step (n - 1)
      then concat (
          "GPU "
          ∷ number id
          ∷ " received Block "
          ∷ show_int msg.block_idx
          ∷ " from GPU "
          ∷ show_int msg.sender_id
          ∷ ": "
          ∷ shown old
          ∷ " + "
          ∷ shown value
          ∷ " = "
          ∷ shown new
          ∷ [])
      else concat (
          "GPU "
          ∷ number id
          ∷ " synchronized Block "
          ∷ show_int msg.block_idx
          ∷ " from GPU "
          ∷ show_int msg.sender_id
          ∷ " to final value "
          ∷ shown value
          ∷ [])

  -- The loop of `FormatBuffer` from entry i on.
  format_entries : ℕ → String → List V → String
  format_entries i res [] = res
  format_entries i res (v ∷ vs) =
      let opened = if ltb 0 i then concat (res ∷ ", " ∷ []) else res in
      format_entries (suc i) (concat (opened ∷ shown v ∷ [])) vs

  -- `FormatBuffer`, with `shown` for the verb `%5.1f`.
  unfoldable pub format_buffer : List V → String
  unfolding format_entries
  format_buffer buffer = concat (format_entries 0 "[" buffer ∷ "]" ∷ [])

-- After a GPU of a tree has sent its buffer up, to its parent.
unfoldable pub tree_sent_text : ℕ → ℕ → ℕ → String
tree_sent_text id depth parent = concat (
    "GPU "
    ∷ number id
    ∷ " (leaf/child at depth "
    ∷ number depth
    ∷ ") sent buffer to parent GPU "
    ∷ number parent
    ∷ [])

unfoldable pub tree_reduced_text : ℕ → ℤ → String
tree_reduced_text id sender = concat (
    "GPU " ∷ number id ∷ " (parent) reduced buffer received from child GPU " ∷ show_int sender ∷ [])

unfoldable pub tree_broadcast_text : ℕ → ℕ → ℕ → String
tree_broadcast_text id depth child = concat (
    "GPU "
    ∷ number id
    ∷ " (parent at depth "
    ∷ number depth
    ∷ ") broadcasted reduced buffer to child GPU "
    ∷ number child
    ∷ [])

unfoldable pub tree_updated_text : ℕ → ℤ → String
tree_updated_text id sender = concat (
    "GPU "
    ∷ number id
    ∷ " (child) updated buffer from parent GPU "
    ∷ show_int sender
    ∷ " broadcast"
    ∷ [])
