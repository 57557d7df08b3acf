-- ===== src/Nccl/Simulator/View.antt =====
-- What the display is told of a GPU: `Status`, `LastSentTo`, `LastReceivedFrom` and `ActiveBlockIdx`
-- (nccl-visualizer/simulator.go), for both topologies.
use velo_infra_playground.Prelude.{
  ℕ, suc, ◌-◌, ◌*◌, ◌%◌, List, [], ◌∷◌, Bool, true, false, ◌&&◌, not, Option, none, some, ltb,
  nat_eq, if◌then◌else◌,
}
use velo_infra_playground.Prelude.Int.{ℤ, pos, rem}
use velo_infra_playground.Prelude.Words.{add64, sub64}
use velo_infra_playground.Nccl.Simulator.Types.{Topology, Status, Gpu, GpuState, SimulationState}

unfoldable pub pos_mod : ℤ → ℤ → ℤ
pos_mod a b = rem (add64 (rem a b) b) b

abbrev pub is_empty : List ℕ → Bool
is_empty [] = true
is_empty (c ∷ cs) = false

ring_status : ℕ → ℕ → Status
ring_status n step =
    if ltb step (n - 1)
    then Status.reduce_scatter
    else if ltb step (2 * (n - 1))
    then Status.all_gather
    else Status.idle

unfoldable pub tree_status : ℕ → ℕ → Gpu → Status
tree_status max_depth step g =
    if ltb step max_depth
    then (if nat_eq g.depth (max_depth - step)
        then Status.sending
        else if nat_eq g.depth (max_depth - step - 1) && not (is_empty g.children)
        then Status.receiving
        else Status.idle)
    else if ltb step (2 * max_depth)
    then (if nat_eq g.depth (step - max_depth)
        then Status.broadcasting
        else if nat_eq g.depth (suc (step - max_depth))
        then Status.receiving
        else Status.idle)
    else Status.idle

unfoldable pub status : {V : Type 0} → SimulationState V → Gpu → Status
unfolding ring_status tree_status
status state g = if state.finished then Status.done else elim g.topology [
  | Topology.ring ↦ ring_status g.num_gpus state.step
  | Topology.tree ↦ tree_status state.max_depth state.step g
]

unfoldable pub first_of : List ℕ → Option ℤ
first_of [] = none
first_of (c ∷ cs) = some (pos c)

unfoldable pub as_int : Option ℕ → Option ℤ
as_int none = none
as_int (some i) = some (pos i)

unfoldable pub tree_sent_to : ℕ → ℕ → Gpu → Option ℤ
tree_sent_to max_depth step g =
    if ltb step max_depth
    then (if nat_eq g.depth (max_depth - step) then as_int g.parent else none)
    else if ltb step (2 * max_depth)
    then (if nat_eq g.depth (step - max_depth) then first_of g.children else none)
    else none

unfoldable pub last_sent_to : {V : Type 0} → SimulationState V → Gpu → Option ℤ
unfolding tree_sent_to first_of as_int
last_sent_to state g = elim g.topology [
  | Topology.ring ↦
      if ltb state.step (2 * (g.num_gpus - 1)) then some (pos (suc g.id % g.num_gpus)) else none
  | Topology.tree ↦ tree_sent_to state.max_depth state.step g
]

-- The first child of a depth.
child_at : (ℕ → Gpu) → ℕ → List ℕ → Option ℤ
child_at gpus depth [] = none
child_at gpus depth (c ∷ cs) =
    let rest = child_at gpus depth cs in if nat_eq (gpus c).depth depth then some (pos c) else rest

tree_received_from : (ℕ → Gpu) → ℕ → ℕ → Gpu → Option ℤ
tree_received_from gpus max_depth step g =
    if ltb step max_depth
    then (if nat_eq g.depth (max_depth - step - 1)
        then child_at gpus (max_depth - step) g.children
        else none)
    else if ltb step (2 * max_depth)
    then (if nat_eq g.depth (suc (step - max_depth)) then as_int g.parent else none)
    else none

unfoldable pub last_received_from : {V : Type 0} → (ℕ → Gpu) → SimulationState V → Gpu → Option ℤ
unfolding tree_received_from child_at as_int
last_received_from gpus state g = elim g.topology [
  | Topology.ring ↦
      if ltb state.step (2 * (g.num_gpus - 1))
      then some (pos_mod (sub64 (pos g.id) (pos 1)) (pos g.num_gpus))
      else none
  | Topology.tree ↦ tree_received_from gpus state.max_depth state.step g
]

unfoldable pub active_block_idx : {V : Type 0} → SimulationState V → Gpu → Option ℤ
active_block_idx state g = elim g.topology [
  | Topology.ring ↦
      let n = g.num_gpus in
      if ltb state.step (n - 1)
      then some (pos_mod (sub64 (pos g.id) (pos state.step)) (pos n))
      else if ltb state.step (2 * (n - 1))
      then some (pos_mod (sub64 (add64 (pos g.id) (pos 1)) (pos (state.step - (n - 1)))) (pos n))
      else none
  | Topology.tree ↦ none
]

-- The copy of a GPU's state that `updateState` makes.
unfoldable pub snapshot : {V : Type 0} → (ℕ → Gpu) → SimulationState V → Gpu → List V → GpuState V
snapshot gpus state g buffer = record {
  id = g.id;
  buffer = buffer;
  status = status state g;
  last_sent_to = last_sent_to state g;
  last_received_from = last_received_from gpus state g;
  active_block_idx = active_block_idx state g;
}
