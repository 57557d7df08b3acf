-- ===== src/Nccl/Examples/Stepped.antt =====
-- The theorems on the stepped simulator, for three GPUs with whole numbers.
use velo_infra_playground.Prelude.{
  ◌≤◌, ℕ, ◌+◌, ◌*◌, ◌<◌, ◌≡◌, ◌≢◌, ◌⊎◌, refl, List, [], ◌∷◌, All, Bool, false, none, some, leb,
  arith,
}
use velo_infra_playground.Prelude.Int.{pos, rem, ◌+ℤ◌, ◌-ℤ◌}
use velo_infra_playground.Prelude.Words.{add64, sub64, wrap64}
use velo_infra_playground.Nccl.Network.{run, fire, send_action, receive_action}
use velo_infra_playground.Nccl.Network.Below.{Below}
use velo_infra_playground.Nccl.Network.Ring.{prev}
use velo_infra_playground.Nccl.Buffers.{tabulate, tabulate_from}
use velo_infra_playground.Nccl.AllReduce.{ring_sum}
use velo_infra_playground.Nccl.Examples.{plus, many, small, cycle, cycle-real}
use velo_infra_playground.Nccl.Simulator
use velo_infra_playground.Nccl.Simulator.{
  Simulator, new_simulator, simulate, step, all_done, update_state, ring_gpu, send_block_idx,
}
use velo_infra_playground.Nccl.Simulator.Types.{GpuState, Status, SimulationState, Phase, Topology}
use velo_infra_playground.Nccl.Simulator.View.{
  last_sent_to, last_received_from, active_block_idx, pos_mod,
}
use velo_infra_playground.Nccl.Simulator.Simulated.{Simulated, Simulated-never_done}
use velo_infra_playground.Nccl.Simulator.Results.{simulate-finished, step-returns}
use velo_infra_playground.Nccl.Simulator.Display.{display-ring}
use velo_infra_playground.Nccl.Simulator.Tree.{depths, compute_depth, each, visit, children_upto}
use velo_infra_playground.Nccl.Simulator.Tree.Children.{Level}
use velo_infra_playground.Nccl.Simulator.Tree.Levels.{depths-Level}

-- The j-th block of GPU i, as the simulator fills it.
abbrev filled : ℕ → ℕ → ℕ
filled i j = (i + 1) * 10 + (j + 1)

abbrev schedules : ℕ → List (List ℕ)
schedules ℕ.zero = []
schedules (ℕ.suc k) = cycle 1 ∷ schedules k

schedules-real : (k : ℕ) → All (λ s. All (λ i. i < 3) s) (schedules k)
schedules-real ℕ.zero = tt
schedules-real (ℕ.suc k) = (cycle-real 1, schedules-real k)

-- The simulator after a number of steps.
abbrev after_steps : ℕ → Simulator ℕ
after_steps k = elim (simulate plus 3 (schedules k) (new_simulator 3 filled)) [
  | none ↦ new_simulator 3 filled
  | some sim ↦ sim
]

reached_2 : simulate plus 3 (schedules 2) (new_simulator 3 filled) ≡ some (after_steps 2)
unfolding simulate step all_done update_state new_simulator run fire send_action receive_action
    Simulator.send Simulator.receive send_block_idx rem add64 sub64 wrap64 ◌+ℤ◌ ◌-ℤ◌ tabulate_from
    pos_mod
reached_2 = refl

reached_4 : simulate plus 3 (schedules 4) (new_simulator 3 filled) ≡ some (after_steps 4)
unfolding simulate step all_done update_state new_simulator run fire send_action receive_action
    Simulator.send Simulator.receive send_block_idx rem add64 sub64 wrap64 ◌+ℤ◌ ◌-ℤ◌ tabulate_from
    pos_mod
reached_4 = refl

simulate-finished_example :
    ((after_steps 4).state.finished ≡ leb 4 4)
    × (((after_steps 4).state.finished ≡ false)
        ⊎ Below
            (λ i.
              ((after_steps 4).net.workers i).buffer ≡ tabulate 3 (λ b. ring_sum plus 3 filled b 2))
            3)
simulate-finished_example =
    simulate-finished plus 3 filled many small (schedules 4) (schedules-real 4) (after_steps 4)
      reached_4

-- The third GPU has begun the next step.
step-returns_example :
    (rest : List ℕ) × All (λ i. i < 3) rest
    × (next : Simulator ℕ) × (more : Bool) × (step plus 3 (2 ∷ rest) (after_steps 2)
        ≡ some (next, more))
step-returns_example =
    step-returns plus 3 filled many small (schedules 2) (schedules-real 2) (after_steps 2) reached_2
      (2 ∷ []) (omega arith, tt)

Simulated-never_done_example :
    All (λ (g : GpuState ℕ). g.status ≢ Status.done) (after_steps 4).state.gpus
Simulated-never_done_example =
    Simulated-never_done plus 3 filled (after_steps 4).state
      (Simulated.of_ring (schedules 4) (schedules-real 4) (after_steps 4) reached_4)

abbrev display_example : SimulationState ℕ
display_example = record {
  topology = Topology.ring;
  num_gpus = 3;
  step = 3;
  max_steps = 4;
  max_depth = 0;
  phase = Phase.all_gather;
  gpus = [];
  finished = false;
}

display-ring_example :
    (last_sent_to display_example (ring_gpu 3 (prev 3 0)) ≡ some (pos 0))
    × (last_received_from (ring_gpu 3) display_example (ring_gpu 3 0) ≡ some (pos (prev 3 0)))
    × (active_block_idx display_example (ring_gpu 3 0) ≡ some (send_block_idx 3 0 3))
display-ring_example =
    display-ring (ring_gpu 3) display_example 3 0 many small (omega arith) (omega arith)

depths-Level_example :
    Level 3 ((depths 4).depth 3)
    × ((depths 4).depth 3 ≤ (depths 4).max_depth)
    × ((k : ℕ) × (k < 4) × ((depths 4).depth k ≡ (depths 4).max_depth))
depths-Level_example = depths-Level 4 3 (omega arith)

-- A tree of four GPUs in its first step, in which GPU 3 sends to GPU 1.
abbrev tree_start : SimulationState ℕ
tree_start = record {
  topology = Topology.tree;
  num_gpus = 4;
  step = 0;
  max_steps = 4;
  max_depth = 2;
  phase = Phase.upward_reduce;
  gpus = [];
  finished = false;
}

deepest : (depths 4).depth 3 ≡ 2
unfolding depths compute_depth each visit children_upto
deepest = refl
