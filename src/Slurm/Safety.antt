-- ===== src/Slurm/Safety.antt =====
-- Every operation of the store and the scheduler keeps the invariant.
use velo_infra_playground.Prelude.{
  ◌≡◌, refl, sym, subst, ◌&&◌, String, List, [], ◌∷◌, true, false, none, some, arith, inl, inr,
  string_Eq, Bool-cases, Option-cases, and_left,
}
use velo_infra_playground.Prelude.Int.{ℤ, pos, pos_part, int_Eq, ◌≤ℤ◌, ◌+ℤ◌, leb_ℤ, int_laws}
use velo_infra_playground.Prelude.Words.{IsInt64, add64_exact}
use velo_infra_playground.Prelude.Dict.{lookup, insert, lookup-insert_cases}
use velo_infra_playground.Prelude.Text.{split}
use velo_infra_playground.Slurm.Types.{SlurmJob, JobState, ClusterStore, is_running, is_pending}
use velo_infra_playground.Slurm.Store.{
  set_to, put_job, release_node, release_resources, cancel_job, submit_job,
}
use velo_infra_playground.Slurm.Scheduler.{
  try_node, start_job, try_nodes, try_schedule_job, complete_step, schedule_step, complete_all,
  schedule_all, reconcile_jobs,
}
use velo_infra_playground.Slurm.Accounting.{IsSane, try_node-Holds}
use velo_infra_playground.Slurm.Usage.{
  cpus_of, gpus_of, memory_of, usage, usage-insert_new, demand_idle,
}
use velo_infra_playground.Slurm.Invariant.{Inv, cast, Inv-put_idle}
use velo_infra_playground.Slurm.Moves.{Inv-start, Inv-stop}

waiting : (job : SlurmJob) → is_pending job.job_state ≡ true → is_running job.job_state ≡ false
waiting job h = ground arith

-- Only the state and the end time of an entry change.
restate-IsSane :
    (job : SlurmJob) (st : JobState) (t : _)
    → IsSane job
    → IsSane (record job { job_state = st; end_time = t })
restate-IsSane job st t s = record {
  cpus_nonneg = s.cpus_nonneg;
  gpus_nonneg = s.gpus_nonneg;
  memory_nonneg = s.memory_nonneg;
  memory_set = s.memory_set;
}

module _ (s : ClusterStore) (inv : Inv s) (id : ℤ) (job : SlurmJob)
    (found : lookup id s.jobs ≡ some job) (waits : is_pending job.job_state ≡ true) (now : ℤ) where
  -- The placement loop, on any list of nodes.
  try_nodes-Inv : (ks : List String) → Inv (try_nodes ks id job now s)
  unfolding try_nodes
  try_nodes-Inv [] = inv
  try_nodes-Inv (k ∷ ks) = elim (Option-cases (lookup k s.nodes)) [
    | inl absent ↦ rw (absent, try_nodes) (try_nodes-Inv ks)
    | inr (nd, there) ↦
        rw (there, try_nodes)
          (elim (Option-cases (try_node nd job)) [
            | inl full ↦ rw full (try_nodes-Inv ks)
            | inr (nd', fits) ↦
                let held =
                  try_node-Holds k _ _ _ nd nd' job (inv.nodes_agree k nd there)
                    (inv.jobs_sane id job found) fits in
                rw fits (
                  subst
                    (λ (name : String). Inv (
                      put_job id (start_job job name now)
                        (record s { nodes = insert k nd' s.nodes })))
                    (sym held.named)
                    (Inv-start s inv id job found k nd nd' now there (waiting job waits) fits))
          ])
  ]

  try_schedule_job-Inv : Inv (try_schedule_job id job now s)
  unfolding try_schedule_job
  try_schedule_job-Inv = elim (Option-cases (lookup job.partition s.partitions)) [
    | inl absent ↦
        rw (absent, try_schedule_job)
          (Inv-put_idle s inv id job (record job { job_state = JobState.failed }) found
            (waiting job waits) refl
            (restate-IsSane job JobState.failed job.end_time (inv.jobs_sane id job found)))
    | inr (part, there) ↦ rw (there, try_schedule_job) (try_nodes-Inv (split b',' part.nodes))
  ]

schedule_step-Inv : (now id : ℤ) (s : ClusterStore) → Inv s → Inv (schedule_step now id s)
unfolding schedule_step
schedule_step-Inv now id s inv = elim (Option-cases (lookup id s.jobs)) [
  | inl absent ↦ rw (absent, schedule_step) inv
  | inr (job, found) ↦
      rw (found, schedule_step)
        (elim (Bool-cases (is_pending job.job_state)) [
          | inl waits ↦ rw waits (try_schedule_job-Inv s inv id job found waits now)
          | inr settled ↦ rw settled inv
        ])
]

-- The entry may be written before the release or after it.
release_resources-put_job :
    (id : ℤ) (job new : SlurmJob) (s : ClusterStore)
    → release_resources job (put_job id new s) ≡ put_job id new (release_resources job s)
unfolding release_resources
release_resources-put_job id job new s = elim (Option-cases (lookup job.node_list s.nodes)) [
  | inl absent ↦ rw (absent, release_resources)
  | inr (nd, there) ↦ rw (there, release_resources)
]

complete_step-Inv : (now id : ℤ) (s : ClusterStore) → Inv s → Inv (complete_step now id s)
unfolding complete_step
complete_step-Inv now id s inv = elim (Option-cases (lookup id s.jobs)) [
  | inl absent ↦ rw (absent, complete_step) inv
  | inr (job, found) ↦
      rw (found, complete_step)
        (elim (Bool-cases (is_running job.job_state && leb_ℤ job.end_time.number now)) [
          | inl due ↦ rw due (stop job found (and_left _ _ due))
          | inr early ↦ rw early inv
        ])
]
  where
    stop :
        (job : SlurmJob)
        → lookup id s.jobs ≡ some job
        → is_running job.job_state ≡ true
        → let job' : SlurmJob = record job { job_state = JobState.completed } in
          Inv (release_resources job' (put_job id job' s))
    stop job found runs =
        let job' : SlurmJob = record job { job_state = JobState.completed } in
        rw (release_resources-put_job id job' job' s) (
          unfold release_resources release_node in
          Inv-stop s inv id job found job' runs refl
            (restate-IsSane job JobState.completed job.end_time (inv.jobs_sane id job found)))

complete_all-Inv :
    (now : ℤ) (ids : List ℤ) (s : ClusterStore) → Inv s → Inv (complete_all now ids s)
unfolding complete_all
complete_all-Inv now [] s inv = inv
complete_all-Inv now (id ∷ ids) s inv =
    complete_all-Inv now ids (complete_step now id s) (complete_step-Inv now id s inv)

schedule_all-Inv :
    (now : ℤ) (ids : List ℤ) (s : ClusterStore) → Inv s → Inv (schedule_all now ids s)
unfolding schedule_all
schedule_all-Inv now [] s inv = inv
schedule_all-Inv now (id ∷ ids) s inv =
    schedule_all-Inv now ids (schedule_step now id s) (schedule_step-Inv now id s inv)

-- A tick of the scheduler keeps the invariant, at any time and in whatever order the two loops
-- meet the jobs.
pub reconcile_jobs-Inv :
    (now : ℤ) (first second : List ℤ) (s : ClusterStore)
    → Inv s
    → Inv (reconcile_jobs now first second s)
unfolding reconcile_jobs
reconcile_jobs-Inv now first second s inv =
    schedule_all-Inv now second (complete_all now first s) (complete_all-Inv now first s inv)

-- So does a cancellation, of any job in any state.
pub cancel_job-Inv : (now id : ℤ) (s : ClusterStore) → Inv s → Inv (cancel_job now id s).0
unfolding cancel_job
cancel_job-Inv now id s inv = elim (Option-cases (lookup id s.jobs)) [
  | inl absent ↦ rw (absent, cancel_job) inv
  | inr (job, found) ↦
      let sane = restate-IsSane job JobState.cancelled (set_to now) (inv.jobs_sane id job found) in
      rw (found, cancel_job)
        (elim (Bool-cases (is_running job.job_state)) [
          | inl runs ↦ rw runs (Inv-stop s inv id job found _ runs refl sane)
          | inr rests ↦ rw rests (Inv-put_idle s inv id job _ found rests refl sane)
        ])
]

-- A request for no negative amount.
pub record IsSaneRequest (cpus gpus memory : ℤ) : Type 0 where
  pub cpus_nonneg : pos 0 ≤ℤ cpus
  pub gpus_nonneg : pos 0 ≤ℤ gpus
  pub memory_nonneg : pos 0 ≤ℤ memory

nonneg-eq : (z : ℤ) → pos 0 ≤ℤ z → z ≡ pos (pos_part z)
nonneg-eq z h = ground arith

module _ (s : ClusterStore) (inv : Inv s) (now : ℤ) (name partition : String)
    (cpus gpus memory duration : ℤ) where
  fresh : lookup s.next_job_id s.jobs ≡ none
  fresh = elim (Option-cases (lookup s.next_job_id s.jobs)) [
    | inl absent ↦ absent
    | inr (job, found) ↦ absurd (omega (arith, inv.jobs_below s.next_job_id job found))
  ]

  abbrev submitted : SlurmJob
  submitted = (submit_job s now name partition cpus gpus memory duration).1

  submitted-IsSane : IsSaneRequest cpus gpus memory → IsSane submitted
  unfolding submit_job
  submitted-IsSane r = record {
    cpus_nonneg = nonneg-eq cpus r.cpus_nonneg;
    gpus_nonneg = nonneg-eq gpus r.gpus_nonneg;
    memory_nonneg = nonneg-eq memory r.memory_nonneg;
    memory_set = refl;
  }

  -- A submission that asks for no negative amount keeps the invariant, while job numbers last.
  pub submit_job-Inv :
      IsSaneRequest cpus gpus memory
      → IsInt64 (s.next_job_id +ℤ pos 1)
      → Inv (submit_job s now name partition cpus gpus memory duration).0
  unfolding submit_job
  submit_job-Inv r word = record {
    nodes_agree = λ k nd e.
        cast k _ _ _ _ _ _ nd (same cpus_of k) (same gpus_of k) (same memory_of k)
          (inv.nodes_agree k nd e);
    jobs_sane = λ i j e. elim (lookup-insert_cases s.next_job_id i submitted s.jobs e) [
      | inl p ↦ rw (← p.1) (submitted-IsSane r)
      | inr q ↦ inv.jobs_sane i j q.1
    ];
    jobs_below = λ i j e. elim (lookup-insert_cases s.next_job_id i submitted s.jobs e) [
      | inl p ↦ rw (add64_exact s.next_job_id (pos 1) word, ← p.0) (omega int_laws)
      | inr q ↦
          rw (add64_exact s.next_job_id (pos 1) word) (omega (int_laws, inv.jobs_below i j q.1))
    ];
  }
    where
      same :
          (amount : SlurmJob → ℤ) (k : String)
          → usage amount k (insert s.next_job_id submitted s.jobs) ≡ usage amount k s.jobs
      same amount k = omega (
        arith,
        usage-insert_new amount k s.next_job_id s.jobs submitted fresh,
        demand_idle amount k submitted refl,
      )
