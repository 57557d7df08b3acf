-- ===== src/Slurm/Scheduler.antt =====
-- The scheduler (slurm-simulator/scheduler.go): completion of running jobs, first-fit placement of
-- pending ones. Go ranges over a map in an unspecified order, so the orders are arguments.
use velo_infra_playground.Prelude.{
  ℕ, suc, String, List, [], ◌∷◌, ◌&&◌, Option, none, some, if◌then◌else◌, ◌==◌, string_Eq,
}
use velo_infra_playground.Prelude.Int.{ℤ, ltb_ℤ, leb_ℤ, int_Eq}
use velo_infra_playground.Prelude.Words.{add64, sub64}
use velo_infra_playground.Prelude.Dict.{lookup, insert}
use velo_infra_playground.Prelude.Text.{split, concat, show_int}
use velo_infra_playground.Slurm.Types.{
  JobState, Gres, SlurmNode, SlurmJob, ClusterStore, is_running, is_pending,
}
use velo_infra_playground.Slurm.Store.{set_to, recalculate_node_state, release_resources, put_job}

-- The loop over the node's resources: index and free count of the first one called "gpu".
unfoldable pub find_gpu : List Gres → ℕ → Option (ℕ × ℤ)
find_gpu [] i = none
find_gpu (g ∷ gs) i =
    let rest = find_gpu gs (suc i) in
    if g.name == "gpu" then some (i, sub64 g.count g.used) else rest

-- `node.GRESList[i].Used += gpus`.
unfoldable pub add_used : List Gres → ℕ → ℤ → List Gres
add_used [] i gpus = []
add_used (g ∷ gs) ℕ.zero gpus = record g { used = add64 g.used gpus } ∷ gs
add_used (g ∷ gs) (ℕ.suc i) gpus = g ∷ add_used gs i gpus

unfoldable pub allocate : SlurmNode → SlurmJob → ℕ → SlurmNode
allocate nd job i = recalculate_node_state (record nd {
  cpus_used = add64 nd.cpus_used job.cpus;
  memory_used =
      if job.memory.is_set then add64 nd.memory_used job.memory.number else nd.memory_used;
  gres_list = add_used nd.gres_list i job.gpus;
})

-- One round of the placement loop: `none` is `continue`.
unfoldable pub try_node : SlurmNode → SlurmJob → Option SlurmNode
unfolding find_gpu
try_node nd job =
    if ltb_ℤ (sub64 nd.cpus nd.cpus_used) job.cpus
    then none
    else if job.memory.is_set && ltb_ℤ (sub64 nd.memory nd.memory_used) job.memory.number
    then none
    else elim (find_gpu nd.gres_list 0) [
      | none ↦ none
      | some (i, available) ↦ if ltb_ℤ available job.gpus then none else some (allocate nd job i)
    ]

unfoldable pub start_job : SlurmJob → String → ℤ → SlurmJob
start_job job node_name now = record job {
  job_state = JobState.running;
  node_list = node_name;
  start_time = set_to now;
  end_time = set_to (add64 now job.duration);
  gres_alloc_str =
      concat ("cpu=" ∷ show_int job.cpus ∷ ",node=1,gres/gpu=" ∷ show_int job.gpus ∷ []);
}

-- The placement loop: the first node of the list that exists and has room.
unfoldable pub try_nodes : List String → ℤ → SlurmJob → ℤ → ClusterStore → ClusterStore
try_nodes [] id job now s = s
try_nodes (k ∷ ks) id job now s =
    let rest = try_nodes ks id job now s in
    elim (lookup k s.nodes) [
      | none ↦ rest
      | some nd ↦ elim (try_node nd job) [
        | none ↦ rest
        | some nd' ↦
            put_job id (start_job job nd'.name now) (record s { nodes = insert k nd' s.nodes })
      ]
    ]

unfoldable pub try_schedule_job : ℤ → SlurmJob → ℤ → ClusterStore → ClusterStore
try_schedule_job id job now s = elim (lookup job.partition s.partitions) [
  | none ↦ put_job id (record job { job_state = JobState.failed }) s
  | some part ↦ try_nodes (split b',' part.nodes) id job now s
]

-- One round of the first loop of `reconcileJobs`.
unfoldable pub complete_step : ℤ → ℤ → ClusterStore → ClusterStore
complete_step now id s = elim (lookup id s.jobs) [
  | none ↦ s
  | some job ↦
      if is_running job.job_state && leb_ℤ job.end_time.number now
      then (let job' : SlurmJob = record job { job_state = JobState.completed } in
          release_resources job' (put_job id job' s))
      else s
]

-- One round of the second loop.
unfoldable pub schedule_step : ℤ → ℤ → ClusterStore → ClusterStore
schedule_step now id s = elim (lookup id s.jobs) [
  | none ↦ s
  | some job ↦ if is_pending job.job_state then try_schedule_job id job now s else s
]

unfoldable pub complete_all : ℤ → List ℤ → ClusterStore → ClusterStore
complete_all now [] s = s
complete_all now (id ∷ ids) s = complete_all now ids (complete_step now id s)

unfoldable pub schedule_all : ℤ → List ℤ → ClusterStore → ClusterStore
schedule_all now [] s = s
schedule_all now (id ∷ ids) s = schedule_all now ids (schedule_step now id s)

-- `first` and `second` are the orders in which the two loops meet the jobs.
unfoldable pub reconcile_jobs : ℤ → List ℤ → List ℤ → ClusterStore → ClusterStore
reconcile_jobs now first second s = schedule_all now second (complete_all now first s)
