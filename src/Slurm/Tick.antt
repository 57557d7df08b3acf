-- ===== src/Slurm/Tick.antt =====
-- What one whole tick (`reconcileJobs`) does to one job.
use mathlib.Core.List.{Memᴰ}
use velo_infra_playground.Prelude.{
  ◌≡◌, refl, subst, inl, inr, String, List, true, none, some, arith, string_Eq, Bool-cases,
}
use velo_infra_playground.Prelude.Int.{ℤ, int_Eq, ◌≤ℤ◌}
use velo_infra_playground.Prelude.Dict.{Dict, lookup}
use velo_infra_playground.Slurm.Types.{
  JobState, SlurmJob, SlurmPartition, ClusterStore, is_running, is_pending,
}
use velo_infra_playground.Slurm.Scheduler.{start_job, complete_all, schedule_all, reconcile_jobs}
use velo_infra_playground.Slurm.Completion.{
  is_due, finish, complete_all-due, complete_all-entry, complete_all-partitions,
}
use velo_infra_playground.Slurm.Starts.{
  Scheduled, same, started, refused, schedule_all-settled, schedule_all-pending,
}

-- The four things that a tick at `now` can make of a job.
pub data Ticked (now : ℤ) (partitions : Dict String SlurmPartition) (job new : SlurmJob)
    : Type 0 where
  unchanged : new ≡ job → Ticked now partitions job new
  completes :
      job.job_state ≡ JobState.running
      → job.end_time.number ≤ℤ now
      → new ≡ record job { job_state = JobState.completed }
      → Ticked now partitions job new
  starts :
      (k : String)
      → job.job_state ≡ JobState.pending
      → new ≡ start_job job k now
      → Ticked now partitions job new
  fails :
      job.job_state ≡ JobState.pending
      → lookup job.partition partitions ≡ none
      → new ≡ record job { job_state = JobState.failed }
      → Ticked now partitions job new

running_of : (st : JobState) → is_running st ≡ true → st ≡ JobState.running
running_of st h = ground arith

pending_of : (st : JobState) → is_pending st ≡ true → st ≡ JobState.pending
pending_of st h = ground arith

due_parts :
    (now : ℤ) (job : SlurmJob)
    → is_due now job ≡ true
    → (job.job_state ≡ JobState.running) × (job.end_time.number ≤ℤ now)
due_parts now job h = ground arith

due_idle : (now : ℤ) (job : SlurmJob) → is_pending job.job_state ≡ true → is_due now job ≡ true → ⊥
due_idle now job p h = ground arith

scheduled-Ticked :
    (now : ℤ) (partitions : Dict String SlurmPartition) (job new : SlurmJob)
    → is_pending job.job_state ≡ true
    → Scheduled now partitions job new
    → Ticked now partitions job new
scheduled-Ticked now partitions job new idle (same p) = unchanged p
scheduled-Ticked now partitions job new idle (started k p) =
    starts k (pending_of job.job_state idle) p
scheduled-Ticked now partitions job new idle (refused absent p) =
    fails (pending_of job.job_state idle) absent p

module _ (now id : ℤ) (first second : List ℤ) (s : ClusterStore) (job : SlurmJob)
    (found : lookup id s.jobs ≡ some job) where
  -- A tick keeps every job's entry, and makes of it one of the four things of `Ticked`: nothing, a
  -- completion of a running job whose end time has come, a start of a pending job, or a failure of
  -- a pending job of an unknown partition.
  pub reconcile_jobs-Ticked :
      (new : SlurmJob) × (lookup id (reconcile_jobs now first second s).jobs ≡ some new)
      × Ticked now s.partitions job new
  unfolding reconcile_jobs
  reconcile_jobs-Ticked = elim (complete_all-entry now id job first s found) [
    | inl stays ↦ elim (Bool-cases (is_pending job.job_state)) [
      | inl idle ↦ pending_fate stays idle
      | inr settled ↦ (
        job,
        schedule_all-settled now id job second (complete_all now first s) stays settled,
        unchanged refl,
      )
    ]
    | inr (due, done) ↦ (
      finish job,
      schedule_all-settled now id (finish job) second (complete_all now first s) done refl,
      completes (due_parts now job due).0 (due_parts now job due).1 refl,
    )
  ]
    where
      pending_fate :
          lookup id (complete_all now first s).jobs ≡ some job
          → is_pending job.job_state ≡ true
          → (new : SlurmJob) × (lookup id (schedule_all now second (complete_all now first s)).jobs
              ≡ some new)
            × Ticked now s.partitions job new
      pending_fate stays idle =
          let (new, e, f) =
            schedule_all-pending now id job second (complete_all now first s) stays idle in
          (
            new,
            e,
            scheduled-Ticked now s.partitions job new idle (
                subst (λ (ps : Dict String SlurmPartition). Scheduled now ps job new)
                  (complete_all-partitions now first s) f),
          )

  -- A running job whose end time has come is completed by the tick, if its first loop meets the job.
  pub reconcile_jobs-completes :
      job.job_state ≡ JobState.running
      → job.end_time.number ≤ℤ now
      → Memᴰ id first
      → lookup id (reconcile_jobs now first second s).jobs
        ≡ some (record job { job_state = JobState.completed })
  unfolding reconcile_jobs
  reconcile_jobs-completes runs due m =
      schedule_all-settled now id (finish job) second (complete_all now first s)
        (complete_all-due now id job first s found (ground arith) m) refl
