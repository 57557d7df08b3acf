-- ===== src/Slurm/Examples.antt =====
-- The theorems on concrete clusters: one job is submitted, started, seen to its end and cancelled.
use mathlib.Core.List.{Memᴰ}
use text.Mathlib.TextEquality.{eq_iff}
use velo_infra_playground.Prelude.{
  ◌≡◌, ◌≢◌, ◌⊎◌, refl, String, List, [], ◌∷◌, some, arith, string_Eq,
}
use velo_infra_playground.Prelude.Int.{ℤ, pos, int_Eq, ltb_ℤ, ◌+ℤ◌, ◌-ℤ◌}
use velo_infra_playground.Prelude.Words.{add64, sub64, wrap64}
use velo_infra_playground.Prelude.Dict.{lookup, insert}
use velo_infra_playground.Prelude.Text.{split, concat, show_int}
use velo_infra_playground.Slurm.Types.{
  NodeState, PartitionState, JobState, SlurmNode, SlurmPartition, SlurmJob, ClusterStore,
}
use velo_infra_playground.Slurm.Store
use velo_infra_playground.Slurm.Store.{unset, set_to}
use velo_infra_playground.Slurm.Scheduler
use velo_infra_playground.Slurm.Reach.{Step, Reach, Accounted, reachable-Accounted}
use velo_infra_playground.Slurm.Placement.{Outcome, schedule_step-first_fit}
use velo_infra_playground.Slurm.Tick.{Ticked, reconcile_jobs-Ticked, reconcile_jobs-completes}
use velo_infra_playground.Slurm.Requests.{get_job-submit_job, cancel_job-known}
use velo_infra_playground.Slurm.Handlers.{serve}
use velo_infra_playground.Slurm.Handlers.Api.{SlurmSubmitJobReq, Route}
use velo_infra_playground.Slurm.Handlers.Contract.{
  IsConsistent, Writes, serve-IsConsistent, serve-Writes, serve-post,
}

abbrev pub fresh : ClusterStore
fresh = Store.new_cluster_store

-- Eight CPUs and four GPUs for fifteen seconds.
abbrev pub submitted : ClusterStore
submitted =
    (Store.submit_job fresh (pos 1000) "train" "h100-partition" (pos 8) (pos 4) (pos 4000)
      (pos 15)).0

abbrev pub waiting_job : SlurmJob
waiting_job = record {
  job_id = pos 10001;
  name = "train";
  job_state = JobState.pending;
  partition = "h100-partition";
  node_list = "";
  cpus = pos 8;
  gpus = pos 4;
  duration = pos 15;
  start_time = unset;
  end_time = unset;
  submit_time = set_to (pos 1000);
  memory = set_to (pos 4000);
  gres_alloc_str = "";
}

abbrev pub ids : List ℤ
ids = pos 10001 ∷ []

abbrev pub started : ClusterStore
started = Scheduler.reconcile_jobs (pos 1010) ids ids submitted

abbrev pub busy_node : SlurmNode
busy_node = record {
  name = "node-1";
  state = NodeState.mixed;
  cpus = pos 64;
  cpus_used = pos 8;
  memory = pos 256000;
  memory_used = pos 4000;
  gres_list = record { name = "gpu"; kind = "h100"; count = pos 8; used = pos 4 } ∷ [];
}

abbrev pub running_job : SlurmJob
running_job = record waiting_job {
  job_state = JobState.running;
  node_list = "node-1";
  start_time = set_to (pos 1010);
  end_time = set_to (pos 1025);
  gres_alloc_str = "cpu=8,node=1,gres/gpu=4";
}

pub waiting_there : lookup (pos 10001) submitted.jobs ≡ some waiting_job
unfolding Store.submit_job Store.new_cluster_store Store.new_node insert lookup add64 wrap64 ◌+ℤ◌
waiting_there = refl

pub running_there : lookup (pos 10001) started.jobs ≡ some running_job
unfolding Store.submit_job Store.new_cluster_store Store.new_node insert lookup add64 wrap64 ◌+ℤ◌
    ◌-ℤ◌ sub64 split concat show_int Store.count_gpus Store.occupancy Store.recalculate_node_state
    Scheduler.find_gpu Scheduler.add_used Scheduler.allocate Scheduler.try_node Scheduler.start_job
    Scheduler.try_nodes Scheduler.try_schedule_job Scheduler.complete_step Scheduler.schedule_step
    Scheduler.complete_all Scheduler.schedule_all Scheduler.reconcile_jobs
running_there = refl

pub busy_there : lookup "node-1" started.nodes ≡ some busy_node
unfolding Store.submit_job Store.new_cluster_store Store.new_node insert lookup add64 wrap64 ◌+ℤ◌
    ◌-ℤ◌ sub64 split concat show_int Store.count_gpus Store.occupancy Store.recalculate_node_state
    Scheduler.find_gpu Scheduler.add_used Scheduler.allocate Scheduler.try_node Scheduler.start_job
    Scheduler.try_nodes Scheduler.try_schedule_job Scheduler.complete_step Scheduler.schedule_step
    Scheduler.complete_all Scheduler.schedule_all Scheduler.reconcile_jobs
busy_there = refl

pub Reach-submitted : Reach fresh submitted
unfolding Store.new_cluster_store ◌+ℤ◌
Reach-submitted = Reach.next Reach.here (
    Step.submit fresh (pos 1000) "train" "h100-partition" (pos 8) (pos 4) (pos 4000) (pos 15)
      (record { cpus_nonneg = omega arith; gpus_nonneg = omega arith; memory_nonneg = omega arith })
      (record { above = omega arith; below = omega arith }))

pub Reach-started : Reach fresh started
Reach-started = Reach.next Reach-submitted (Step.tick submitted (pos 1010) ids ids)

reachable-Accounted_example : Accounted started "node-1" busy_node
reachable-Accounted_example =
    reachable-Accounted started "node-1" busy_node Reach-started busy_there

abbrev h100 : SlurmPartition
h100 = record {
  name = "h100-partition";
  state = PartitionState.up;
  nodes = "node-1,node-2";
  max_time = pos 120;
  default_memory = pos 128000;
  gpus_per_node = pos 8;
  gpu_type = "h100";
}

h100_there : lookup "h100-partition" submitted.partitions ≡ some h100
unfolding Store.submit_job Store.new_cluster_store lookup
h100_there = refl

schedule_step-first_fit_example :
    Outcome submitted
      (pos 10001)
      waiting_job
      (pos 1010)
      (split b',' "node-1,node-2")
      (Scheduler.schedule_step (pos 1010) (pos 10001) submitted)
schedule_step-first_fit_example =
    schedule_step-first_fit submitted (pos 10001) waiting_job h100 (pos 1010) Reach-submitted
      waiting_there refl h100_there

reconcile_jobs-Ticked_example :
    (new : SlurmJob) × (lookup
        (pos 10001)
        (Scheduler.reconcile_jobs (pos 1010) ids ids submitted).jobs
      ≡ some new)
    × Ticked (pos 1010) submitted.partitions waiting_job new
reconcile_jobs-Ticked_example =
    reconcile_jobs-Ticked (pos 1010) (pos 10001) ids ids submitted waiting_job waiting_there

reconcile_jobs-completes_example :
    lookup (pos 10001) (Scheduler.reconcile_jobs (pos 1025) ids ids started).jobs
    ≡ some (record running_job { job_state = JobState.completed })
reconcile_jobs-completes_example =
    reconcile_jobs-completes (pos 1025) (pos 10001) ids ids started running_job running_there refl
      (omega arith) (Memᴰ.head refl)

get_job-submit_job_example :
    let (t, job) =
      Store.submit_job submitted
        (pos 1001)
        "eval"
        "a100-partition"
        (pos 1)
        (pos 0)
        (pos 10)
        (pos 5) in
    (job ≡ record {
      job_id = submitted.next_job_id;
      name = "eval";
      job_state = JobState.pending;
      partition = "a100-partition";
      node_list = "";
      cpus = (pos 1);
      gpus = (pos 0);
      duration = (pos 5);
      start_time = unset;
      end_time = unset;
      submit_time = set_to (pos 1001);
      memory = record { number = pos 10; is_set = ltb_ℤ (pos 0) (pos 10) };
      gres_alloc_str = "";
    })
    × (Store.get_job t job.job_id ≡ some job)
    × ((pos 10001 ≡ job.job_id)
        ⊎ (Store.get_job t (pos 10001) ≡ Store.get_job submitted (pos 10001)))
    × (t.nodes ≡ submitted.nodes)
    × (t.partitions ≡ submitted.partitions)
    × (t.next_job_id ≡ add64 submitted.next_job_id (pos 1))
get_job-submit_job_example =
    get_job-submit_job submitted (pos 1001) "eval" "a100-partition" (pos 1) (pos 0) (pos 10) (pos 5)
      (pos 10001)

running_found : Store.get_job started (pos 10001) ≡ some running_job
unfolding Store.get_job
running_found = running_there

cancel_job-known_example :
    let (t, answer) = Store.cancel_job (pos 1012) (pos 10001) started in
    (answer
      ≡ some (record running_job { job_state = JobState.cancelled; end_time = set_to (pos 1012) }))
    × (Store.get_job t (pos 10001) ≡ answer)
    × ((pos 10001 ≡ pos 10002) ⊎ (Store.get_job t (pos 10002) ≡ Store.get_job started (pos 10002)))
    × (t.nodes ≡ (Store.release_resources running_job started).nodes)
cancel_job-known_example =
    cancel_job-known (pos 1012) (pos 10001) (pos 10002) running_job started running_found

abbrev token : String
token = "secret"

abbrev request : SlurmSubmitJobReq
request = record {
  script = "srun nvidia-smi";
  name = "";
  partition = "";
  tasks = pos 2;
  cpus_per_task = pos 4;
  tres_per_node = "gpu:h100:2";
  time_limit = pos 0;
  memory_per_node = unset;
}

token_given : token ≢ ""
token_given = ground (arith, eq_iff "secret" "")

serve-IsConsistent_example : IsConsistent (serve (pos 1000) "" (Route.get_job "10001") submitted).1
serve-IsConsistent_example = serve-IsConsistent (pos 1000) "" (Route.get_job "10001") submitted

serve-Writes_example :
    ((token ≢ "") × Writes started (Route.delete_job "10001"))
    ⊎ ((serve (pos 1012) token (Route.delete_job "10001") started).0 ≡ started)
serve-Writes_example = serve-Writes (pos 1012) token (Route.delete_job "10001") started

serve-post_example :
    let (t, r) = serve (pos 1000) token (Route.post_job (some request)) fresh in
    (r.status ≡ 200)
    × ((job : SlurmJob) × (Store.get_job t fresh.next_job_id ≡ some job)
        × (job.job_state ≡ JobState.pending)
        × (job.cpus ≢ pos 0)
        × (job.duration ≢ pos 0)
        × (job.memory.number ≢ pos 0)
        × (job.partition ≢ "")
        × (job.name ≢ ""))
serve-post_example = serve-post (pos 1000) token fresh request token_given
