-- ===== src/Nccl/Simulator/Tree/Run.antt =====
-- The tree topology at work (nccl-visualizer/simulator.go): `runTreeStep` of one GPU, and the steps
-- of the simulator. Within a step a GPU either sends or receives, so its messages are put into the
-- channels first; in which order the GPUs' messages reach a channel is an argument.
use velo_infra_playground.Prelude.{
  ℕ, suc, ◌-◌, ◌*◌, List, [], ◌∷◌, ◌++◌, map, Bool, true, false, Option, none, some, ltb, nat_eq,
  if◌then◌else◌,
}
use velo_infra_playground.Prelude.Int.{ℤ, pos, negsuc}
use velo_infra_playground.Nccl.Buffers.{tabulate}
use velo_infra_playground.Nccl.Simulator.Types.{Topology, Phase, BlockMsg, SimulationState}
use velo_infra_playground.Nccl.Simulator.View.{snapshot}
use velo_infra_playground.Nccl.Simulator.Tree.{depths, tree_gpu}

abbrev pub message : {V : Type 0} → ℕ → ℕ → Phase → List V → ℕ → BlockMsg V
message sender step phase values receiver = record {
  sender_id = pos sender;
  receiver_id = pos receiver;
  block_idx = pos 0;
  values = values;
  step = step;
  phase = phase;
}

unfoldable pub to_parent : {V : Type 0} → (ℕ → BlockMsg V) → Option ℕ → List (BlockMsg V)
to_parent msg none = []
to_parent msg (some p) = msg p ∷ []

-- What GPU `i` sends in a step: up, its buffer to its parent; down, its buffer to its children.
unfoldable pub tree_sends : {V : Type 0} → ℕ → ℕ → ℕ → List V → List (BlockMsg V)
unfolding to_parent
tree_sends n step i buffer =
    let g = tree_gpu n i in
    let top = (depths n).max_depth in
    if ltb step top
    then (if nat_eq g.depth (top - step)
        then to_parent (message i step Phase.upward_reduce buffer) g.parent
        else [])
    else if ltb step (2 * top)
    then (if nat_eq g.depth (step - top)
        then map (message i step Phase.downward_broadcast buffer) g.children
        else [])
    else []

-- How many of the children are at a depth.
unfoldable pub expected_count : ℕ → ℕ → List ℕ → ℕ
expected_count n active [] = 0
expected_count n active (c ∷ cs) =
    let rest = expected_count n active cs in
    if nat_eq (tree_gpu n c).depth active then suc rest else rest

-- Block by block; `none` is the panic of a message that is shorter than the buffer.
unfoldable pub reduce_values : {V : Type 0} → (V → V → V) → List V → List V → Option (List V)
reduce_values add [] values = some []
reduce_values add (b ∷ buffer) [] = none
reduce_values add (b ∷ buffer) (v ∷ values) = elim (reduce_values add buffer values) [
  | none ↦ none
  | some rest ↦ some (add b v ∷ rest)
]

-- `copy(buffer, values)`.
unfoldable pub copy_values : {V : Type 0} → List V → List V → List V
copy_values [] values = []
copy_values (b ∷ buffer) [] = b ∷ buffer
copy_values (b ∷ buffer) (v ∷ values) = v ∷ copy_values buffer values

-- The loop that receives from so many children; `none` is also a GPU that waits for a message that
-- does not come. The rest of the channel is kept.
unfoldable pub reduce_all :
    {V : Type 0}
    → (V → V → V)
    → ℕ
    → List (BlockMsg V)
    → List V
    → Option (List V × List (BlockMsg V))
unfolding reduce_values
reduce_all add ℕ.zero channel buffer = some (buffer, channel)
reduce_all add (ℕ.suc k) [] buffer = none
reduce_all add (ℕ.suc k) (msg ∷ channel) buffer = elim (reduce_values add buffer msg.values) [
  | none ↦ none
  | some buffer' ↦ reduce_all add k channel buffer'
]

unfoldable pub copy_one :
    {V : Type 0} → List (BlockMsg V) → List V → Option (List V × List (BlockMsg V))
unfolding copy_values
copy_one [] buffer = none
copy_one (msg ∷ channel) buffer = some (copy_values buffer msg.values, channel)

-- What GPU `i` makes of its channel and its buffer in a step.
unfoldable pub tree_receives :
    {V : Type 0}
    → (V → V → V)
    → ℕ
    → ℕ
    → ℕ
    → List (BlockMsg V)
    → List V
    → Option (List V × List (BlockMsg V))
unfolding expected_count reduce_all copy_one
tree_receives add n step i channel buffer =
    let g = tree_gpu n i in
    let top = (depths n).max_depth in
    if ltb step top
    then (if nat_eq g.depth (top - step)
        then some (buffer, channel)
        else if nat_eq g.depth (top - step - 1)
        then reduce_all add (expected_count n (top - step) g.children) channel buffer
        else some (buffer, channel))
    else if ltb step (2 * top)
    then (if nat_eq g.depth (step - top)
        then some (buffer, channel)
        else if nat_eq g.depth (suc (step - top))
        then copy_one channel buffer
        else some (buffer, channel))
    else some (buffer, channel)

abbrev pub is_to : ℕ → ℤ → Bool
is_to i (pos receiver) = nat_eq receiver i
is_to i (negsuc receiver) = false

-- The messages that go into the channel of GPU `i`.
unfoldable pub addressed : {V : Type 0} → ℕ → List (BlockMsg V) → List (BlockMsg V)
addressed i [] = []
addressed i (msg ∷ msgs) =
    let rest = addressed i msgs in if is_to i msg.receiver_id then msg ∷ rest else rest

-- What the GPUs, in this order, put into the channel of GPU `i`.
unfoldable pub incoming : {V : Type 0} → ℕ → ℕ → (ℕ → List V) → ℕ → List ℕ → List (BlockMsg V)
unfolding addressed
incoming n step buffers i [] = []
incoming n step buffers i (j ∷ order) =
    addressed i (tree_sends n step j (buffers j)) ++ incoming n step buffers i order

pub record TreeSimulator (V : Type 0) : Type 0 where
  pub buffers : ℕ → List V
  pub channels : ℕ → List (BlockMsg V)
  pub state : SimulationState V

-- `updateState`, for a tree.
unfoldable pub update_tree_state :
    {V : Type 0} → ℕ → (ℕ → List V) → SimulationState V → SimulationState V
update_tree_state n buffers state = record state {
  gpus = tabulate n (λ i. snapshot (tree_gpu n) state (tree_gpu n i) (buffers i));
  phase =
      if ltb state.step state.max_depth
      then Phase.upward_reduce
      else if ltb state.step (2 * state.max_depth)
      then Phase.downward_broadcast
      else Phase.completed;
  finished =
      if ltb state.step state.max_depth
      then state.finished
      else if ltb state.step (2 * state.max_depth)
      then state.finished
      else true;
}

unfoldable pub new_tree_simulator : {V : Type 0} → ℕ → (ℕ → ℕ → V) → TreeSimulator V
unfolding update_tree_state
new_tree_simulator n initial =
    let buffers = λ (i : ℕ). tabulate n (initial i) in
    record {
      buffers = buffers;
      channels = λ i. [];
      state = update_tree_state n buffers (record {
        topology = Topology.tree;
        num_gpus = n;
        step = 0;
        max_steps = 2 * (depths n).max_depth;
        max_depth = (depths n).max_depth;
        phase = Phase.none_yet;
        gpus = [];
        finished = false;
      });
    }

-- Whether the first i GPUs have reported the end of the step.
unfoldable pub all_received : {A : Type 0} → (ℕ → Option A) → ℕ → Bool
all_received results ℕ.zero = true
all_received results (ℕ.suc i) = elim (results i) [ none ↦ false | some r ↦ all_received results i ]

abbrev pub buffer_after : {V : Type 0} → List V → Option (List V × List (BlockMsg V)) → List V
buffer_after buffer none = buffer
buffer_after buffer (some (buffer', channel)) = buffer'

abbrev pub channel_after : {V : Type 0} → Option (List V × List (BlockMsg V)) → List (BlockMsg V)
channel_after none = []
channel_after (some (buffer, channel)) = channel

-- `Step`, with the order in which the GPUs' messages reach each channel.
unfoldable pub tree_step :
    {V : Type 0}
    → (V → V → V)
    → ℕ
    → (ℕ → List ℕ)
    → TreeSimulator V
    → Option (TreeSimulator V × Bool)
unfolding tree_receives incoming all_received update_tree_state
tree_step add n orders sim =
    let results = λ (i : ℕ).
      tree_receives add n sim.state.step i
        (sim.channels i ++ incoming n sim.state.step sim.buffers i (orders i)) (sim.buffers i) in
    let buffers = λ (i : ℕ). buffer_after (sim.buffers i) (results i) in
    let state = update_tree_state n buffers (record sim.state { step = suc sim.state.step }) in
    if sim.state.finished
    then some (sim, false)
    else if all_received results n
    then some (
      record { buffers = buffers; channels = λ i. channel_after (results i); state = state },
      if state.finished then false else true,
    )
    else none

-- Calls of `Step`.
unfoldable pub simulate_tree :
    {V : Type 0} → (V → V → V) → ℕ → List (ℕ → List ℕ) → TreeSimulator V → Option (TreeSimulator V)
unfolding tree_step
simulate_tree add n [] sim = some sim
simulate_tree add n (orders ∷ rest) sim = elim (tree_step add n orders sim) [
  | none ↦ none
  | some (sim', more) ↦ simulate_tree add n rest sim'
]
