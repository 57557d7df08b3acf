-- ===== src/Slurm/Types.antt =====
-- The resources that the simulator keeps (slurm-simulator/store.go). Go's `int` and `int64` are ℤ;
-- the strings that name a state are data types.
use velo_infra_playground.Prelude.{String, List, Bool, true, false}
use velo_infra_playground.Prelude.Int.{ℤ}
use velo_infra_playground.Prelude.Dict.{Dict}

pub data NodeState : Type 0 where
  idle allocated mixed down : NodeState

pub data PartitionState : Type 0 where
  up down : PartitionState

pub data JobState : Type 0 where
  pending running completed failed cancelled : JobState

-- One generic resource of a node; GPUs are the entries called "gpu".
pub record Gres : Type 0 where
  pub name : String
  pub kind : String
  pub count : ℤ
  pub used : ℤ

pub record SlurmNode : Type 0 where
  pub name : String
  pub state : NodeState
  pub cpus : ℤ
  pub cpus_used : ℤ
  pub memory : ℤ
  pub memory_used : ℤ
  pub gres_list : List Gres

pub record SlurmPartition : Type 0 where
  pub name : String
  pub state : PartitionState
  pub nodes : String
  pub max_time : ℤ
  pub default_memory : ℤ
  pub gpus_per_node : ℤ
  pub gpu_type : String

-- `TimeObject` and `Value64Object`, which have the same fields.
pub record NumberObject : Type 0 where
  pub number : ℤ
  pub is_set : Bool

pub record SlurmJob : Type 0 where
  pub job_id : ℤ
  pub name : String
  pub job_state : JobState
  pub partition : String
  pub node_list : String
  pub cpus : ℤ
  pub gpus : ℤ
  pub duration : ℤ
  pub start_time : NumberObject
  pub end_time : NumberObject
  pub submit_time : NumberObject
  pub memory : NumberObject
  pub gres_alloc_str : String

-- The lock is not a field: each operation below runs under it from start to end.
pub record ClusterStore : Type 0 where
  pub nodes : Dict String SlurmNode
  pub partitions : Dict String SlurmPartition
  pub jobs : Dict ℤ SlurmJob
  pub next_job_id : ℤ

-- The test `job.JobState == "RUNNING"`.
abbrev pub is_running : JobState → Bool
is_running JobState.running = true
is_running _ = false

-- The test `job.JobState == "PENDING"`.
abbrev pub is_pending : JobState → Bool
is_pending JobState.pending = true
is_pending _ = false
