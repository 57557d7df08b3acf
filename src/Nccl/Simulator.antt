-- ===== src/Nccl/Simulator.antt =====
-- The stepped simulator (nccl-visualizer/simulator.go and types.go), for its ring topology: in each
-- step every GPU's goroutine is released for one round, and the step ends when all have done it.
pub mod Types
pub mod View
pub mod Tree
pub mod Correct
pub mod Settled
pub mod Results
pub mod Simulated
pub mod Display
pub mod Logs
use velo_infra_playground.Prelude.{
  ℕ, suc, ◌+◌, ◌-◌, ◌*◌, ◌%◌, List, [], ◌∷◌, Bool, true, false, ◌&&◌, Option, none, some, ltb, leb,
  if◌then◌else◌,
}
use velo_infra_playground.Prelude.Int.{ℤ, pos, rem}
use velo_infra_playground.Prelude.Words.{add64, sub64}
use velo_infra_playground.Nccl.Network.{Program, Worker, Net, run}
use velo_infra_playground.Nccl.Buffers.{load, store, tabulate}
use Types.{Topology, Phase, BlockMsg, SimulationState, Gpu}
use View.{pos_mod, snapshot}

-- The block that GPU `id` sends in a step.
unfoldable pub send_block_idx : ℕ → ℕ → ℕ → ℤ
send_block_idx n id step =
    if ltb step (n - 1)
    then pos_mod (sub64 (pos id) (pos step)) (pos n)
    else pos_mod (sub64 (add64 (pos id) (pos 1)) (pos (step - (n - 1)))) (pos n)

module _ {V : Type 0} (add : V → V → V) (n : ℕ) where
  -- The first half of `runRingStep`.
  unfoldable pub send : ℕ → ℕ → List V → Option (BlockMsg V)
  send id step buffer = elim (load buffer (send_block_idx n id step)) [
    | none ↦ none
    | some v ↦ some (record {
      sender_id = pos id;
      receiver_id = pos (suc id % n);
      block_idx = send_block_idx n id step;
      values = v ∷ [];
      step = step;
      phase = if ltb step (n - 1) then Phase.reduce_scatter else Phase.all_gather;
    })
  ]

  -- The second half: the block is added to the GPU's own, or put in its place.
  unfoldable pub receive : ℕ → ℕ → BlockMsg V → List V → Option (List V)
  receive id step msg buffer = elim (load buffer msg.block_idx) [
    | none ↦ none
    | some own ↦ elim (load msg.values (pos 0)) [
      | none ↦ none
      | some v ↦ store buffer msg.block_idx (if ltb step (n - 1) then add own v else v)
    ]
  ]

  abbrev pub ring : Program V (BlockMsg V)
  ring = record { size = n; capacity = n * 2; send = send; receive = receive }

-- `updateState`: the GPUs are looked at first, the phase and the end are set after.
unfoldable pub update_state :
    {V : Type 0} → ℕ → (ℕ → Gpu) → Net V (BlockMsg V) → SimulationState V → SimulationState V
update_state n gpus net state = record state {
  gpus = tabulate n (λ i. snapshot gpus state (gpus i) (net.workers i).buffer);
  phase =
      if ltb state.step (n - 1)
      then Phase.reduce_scatter
      else if ltb state.step (2 * (n - 1))
      then Phase.all_gather
      else Phase.completed;
  finished =
      if ltb state.step (n - 1)
      then state.finished
      else if ltb state.step (2 * (n - 1))
      then state.finished
      else true;
}

pub record Simulator (V : Type 0) : Type 0 where
  pub net : Net V (BlockMsg V)
  pub state : SimulationState V

-- A GPU of the ring has no place in a tree.
abbrev pub ring_gpu : ℕ → ℕ → Gpu
ring_gpu n i = record {
  id = i;
  num_gpus = n;
  topology = Topology.ring;
  parent = none;
  children = [];
  depth = 0;
}

unfoldable pub new_simulator : {V : Type 0} → ℕ → (ℕ → ℕ → V) → Simulator V
unfolding update_state
new_simulator n initial =
    let net : Net _ (BlockMsg _) = record {
      workers = λ i. record { buffer = tabulate n (initial i); done = 0; sent = false };
      inbox = λ i. [];
    } in
    record {
      net = net;
      state = update_state n (ring_gpu n) net (record {
        topology = Topology.ring;
        num_gpus = n;
        step = 0;
        max_steps = 2 * (n - 1);
        max_depth = 0;
        phase = Phase.none_yet;
        gpus = [];
        finished = false;
      });
    }

-- Whether the first i goroutines have reported the end of the round.
unfoldable pub all_done : {V M : Type 0} → ℕ → ℕ → Net V M → Bool
all_done ℕ.zero limit net = true
all_done (ℕ.suc i) limit net = leb limit (net.workers i).done && all_done i limit net

-- `Step`, with the schedule that its goroutines follow. `none` is a step that still waits for some
-- of them when the schedule is over.
unfoldable pub step :
    {V : Type 0} → (V → V → V) → ℕ → List ℕ → Simulator V → Option (Simulator V × Bool)
unfolding update_state
step add n schedule sim =
    let limit = suc sim.state.step in
    let net = run (ring add n) limit schedule sim.net in
    let state = update_state n (ring_gpu n) net (record sim.state { step = limit }) in
    if sim.state.finished
    then some (sim, false)
    else if all_done n limit net
    then some (record { net = net; state = state }, if state.finished then false else true)
    else none

-- Calls of `Step`, one for each schedule.
unfoldable pub simulate :
    {V : Type 0} → (V → V → V) → ℕ → List (List ℕ) → Simulator V → Option (Simulator V)
simulate add n [] sim = some sim
simulate add n (schedule ∷ schedules) sim = elim (step add n schedule sim) [
  | none ↦ none
  | some (sim', more) ↦ simulate add n schedules sim'
]
