-- ===== src/Slurm/Store.antt =====
-- The operations of `ClusterStore` (slurm-simulator/store.go). `now` is the clock's reading,
-- `time.Now().Unix()`, of the call.
use velo_infra_playground.Prelude.{
  String, List, [], ◌∷◌, true, false, ◌&&◌, Option, none, some, if◌then◌else◌, ◌==◌, string_Eq,
}
use velo_infra_playground.Prelude.Int.{ℤ, pos, ltb_ℤ, int_eq, int_Eq}
use velo_infra_playground.Prelude.Words.{add64, sub64}
use velo_infra_playground.Prelude.Dict.{values, lookup, insert}
use velo_infra_playground.Slurm.Types.{
  NodeState, PartitionState, JobState, Gres, SlurmNode, SlurmPartition, NumberObject, SlurmJob,
  ClusterStore, is_running,
}

-- The zero value of a numeric object.
abbrev pub unset : NumberObject
unset = record { number = pos 0; is_set = false }

abbrev pub set_to : ℤ → NumberObject
set_to n = record { number = n; is_set = true }

unfoldable pub new_node : String → ℤ → ℤ → String → ℤ → SlurmNode
new_node name cpus memory gpu_type gpus = record {
  name = name;
  state = NodeState.idle;
  cpus = cpus;
  cpus_used = pos 0;
  memory = memory;
  memory_used = pos 0;
  gres_list = record { name = "gpu"; kind = gpu_type; count = gpus; used = pos 0 } ∷ [];
}

h100_partition : SlurmPartition
h100_partition = record {
  name = "h100-partition";
  state = PartitionState.up;
  nodes = "node-1,node-2";
  max_time = pos 120;
  default_memory = pos 128000;
  gpus_per_node = pos 8;
  gpu_type = "h100";
}

a100_partition : SlurmPartition
a100_partition = record {
  name = "a100-partition";
  state = PartitionState.up;
  nodes = "node-3,node-4";
  max_time = pos 240;
  default_memory = pos 64000;
  gpus_per_node = pos 4;
  gpu_type = "a100";
}

unfoldable pub new_cluster_store : ClusterStore
unfolding new_node h100_partition a100_partition
new_cluster_store = record {
  nodes =
      ("node-1", new_node "node-1" (pos 64) (pos 256000) "h100" (pos 8))
      ∷ ("node-2", new_node "node-2" (pos 64) (pos 256000) "h100" (pos 8))
      ∷ ("node-3", new_node "node-3" (pos 32) (pos 128000) "a100" (pos 4))
      ∷ ("node-4", new_node "node-4" (pos 32) (pos 128000) "a100" (pos 4))
      ∷ [];
  partitions = ("h100-partition", h100_partition) ∷ ("a100-partition", a100_partition) ∷ [];
  jobs = [];
  next_job_id = pos 10001;
}

-- Go lists a map in an order of its own choice; here it is the order of insertion.
unfoldable pub get_nodes : ClusterStore → List SlurmNode
get_nodes s = values s.nodes

unfoldable pub get_partitions : ClusterStore → List SlurmPartition
get_partitions s = values s.partitions

unfoldable pub get_jobs : ClusterStore → List SlurmJob
get_jobs s = values s.jobs

unfoldable pub get_job : ClusterStore → ℤ → Option SlurmJob
get_job s id = lookup id s.jobs

unfoldable pub submit_job :
    ClusterStore → ℤ → String → String → ℤ → ℤ → ℤ → ℤ → ClusterStore × SlurmJob
submit_job s now name partition cpus gpus memory duration =
    let job : SlurmJob = record {
      job_id = s.next_job_id;
      name = name;
      job_state = JobState.pending;
      partition = partition;
      node_list = "";
      cpus = cpus;
      gpus = gpus;
      duration = duration;
      start_time = unset;
      end_time = unset;
      submit_time = set_to now;
      memory = record { number = memory; is_set = ltb_ℤ (pos 0) memory };
      gres_alloc_str = "";
    } in
    (
      record s {
        jobs = insert s.next_job_id job s.jobs;
        next_job_id = add64 s.next_job_id (pos 1);
      },
      job,
    )

-- The loop of `recalculateNodeState`: the GPUs of the node in all, and those in use.
unfoldable pub count_gpus : List Gres → ℤ → ℤ → ℤ × ℤ
count_gpus [] total used = (total, used)
count_gpus (g ∷ gs) total used =
    count_gpus gs (if g.name == "gpu" then add64 total g.count else total)
      (if g.name == "gpu" then add64 used g.used else used)

-- The state that the node's counters call for.
unfoldable pub occupancy : SlurmNode → NodeState
unfolding count_gpus
occupancy nd =
    let (total, used) = count_gpus nd.gres_list (pos 0) (pos 0) in
    if int_eq used (pos 0) && int_eq nd.cpus_used (pos 0)
    then NodeState.idle
    else if int_eq used total && int_eq nd.cpus_used nd.cpus
    then NodeState.allocated
    else NodeState.mixed

unfoldable pub recalculate_node_state : SlurmNode → SlurmNode
recalculate_node_state nd = record nd { state = occupancy nd }

-- `if x < 0 { x = 0 }`.
unfoldable pub clamp0 : ℤ → ℤ
clamp0 x = if ltb_ℤ x (pos 0) then pos 0 else x

unfoldable pub release_gres : ℤ → List Gres → List Gres
release_gres gpus [] = []
release_gres gpus (g ∷ gs) =
    (if g.name == "gpu" then record g { used = clamp0 (sub64 g.used gpus) } else g)
    ∷ release_gres gpus gs

-- The body of `releaseResources`, on the node that the job names.
unfoldable pub release_node : SlurmJob → SlurmNode → SlurmNode
release_node job nd = recalculate_node_state (record nd {
  cpus_used = clamp0 (sub64 nd.cpus_used job.cpus);
  memory_used = clamp0 (sub64 nd.memory_used job.memory.number);
  gres_list = release_gres job.gpus nd.gres_list;
})

unfoldable pub release_resources : SlurmJob → ClusterStore → ClusterStore
release_resources job s = elim (lookup job.node_list s.nodes) [
  | none ↦ s
  | some nd ↦ record s { nodes = insert job.node_list (release_node job nd) s.nodes }
]

-- Writes the job back, as the program does through its pointer.
abbrev pub put_job : ℤ → SlurmJob → ClusterStore → ClusterStore
put_job id job s = record s { jobs = insert id job s.jobs }

-- `none` is the answer that there is no such job.
unfoldable pub cancel_job : ℤ → ℤ → ClusterStore → ClusterStore × Option SlurmJob
cancel_job now id s = elim (lookup id s.jobs) [
  | none ↦ (s, none)
  | some job ↦
      let freed = if is_running job.job_state then release_resources job s else s in
      let job' : SlurmJob = record job { job_state = JobState.cancelled; end_time = set_to now } in
      (put_job id job' freed, some job')
]
