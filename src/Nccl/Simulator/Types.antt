-- ===== src/Nccl/Simulator/Types.antt =====
-- The types of the simulator (nccl-visualizer/types.go). Steps and GPU numbers count from 0, so they
-- are natural numbers where the program never makes them negative; -1 for "none" is an option.
use velo_infra_playground.Prelude.{ℕ, List, Bool, Option}
use velo_infra_playground.Prelude.Int.{ℤ}

pub data Topology : Type 0 where
  ring tree : Topology

pub data Phase : Type 0 where
  none_yet reduce_scatter all_gather upward_reduce downward_broadcast completed : Phase

-- The texts of `Status`.
pub data Status : Type 0 where
  idle sending receiving broadcasting reduce_scatter all_gather done : Status

pub record BlockMsg (V : Type 0) : Type 0 where
  pub sender_id : ℤ
  pub receiver_id : ℤ
  pub block_idx : ℤ
  pub values : List V
  pub step : ℕ
  pub phase : Phase

-- What the display shows of a GPU, but for the initial buffer, which never changes.
pub record GpuState (V : Type 0) : Type 0 where
  pub id : ℕ
  pub buffer : List V
  pub status : Status
  pub last_sent_to : Option ℤ
  pub last_received_from : Option ℤ
  pub active_block_idx : Option ℤ

-- The part of a GPU that does not change.
pub record Gpu : Type 0 where
  pub id : ℕ
  pub num_gpus : ℕ
  pub topology : Topology
  pub parent : Option ℕ
  pub children : List ℕ
  pub depth : ℕ

-- The log, and the block size, which is the number of GPUs, are left out. `max_depth` is a field of
-- the simulator in the source.
pub record SimulationState (V : Type 0) : Type 0 where
  pub topology : Topology
  pub num_gpus : ℕ
  pub step : ℕ
  pub max_steps : ℕ
  pub max_depth : ℕ
  pub phase : Phase
  pub gpus : List (GpuState V)
  pub finished : Bool
