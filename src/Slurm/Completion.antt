-- ===== src/Slurm/Completion.antt =====
-- What the first loop of a tick (`reconcileJobs`) does to one job.
use mathlib.Core.List.{Memᴰ}
use velo_infra_playground.Prelude.{
  ◌≡◌, ◌≢◌, refl, sym, ap, subst, ◌∙◌, ◌⊎◌, inl, inr, ◌&&◌, List, [], ◌∷◌, Bool, true, false, some,
  string_Eq, Bool-cases, Option-cases, Eq-cases,
}
use velo_infra_playground.Prelude.Int.{ℤ, int_Eq, leb_ℤ}
use velo_infra_playground.Prelude.Dict.{lookup, lookup-insert_self, lookup-insert_ne}
use velo_infra_playground.Slurm.Types.{JobState, SlurmJob, ClusterStore, is_running}
use velo_infra_playground.Slurm.Store.{put_job, release_resources}
use velo_infra_playground.Slurm.Scheduler.{complete_step, complete_all}

pub release_resources-jobs :
    (job : SlurmJob) (s : ClusterStore) → (release_resources job s).jobs ≡ s.jobs
unfolding release_resources
release_resources-jobs job s = elim (Option-cases (lookup job.node_list s.nodes)) [
  | inl absent ↦ rw (absent, release_resources)
  | inr (nd, there) ↦ rw (there, release_resources)
]

pub release_resources-partitions :
    (job : SlurmJob) (s : ClusterStore) → (release_resources job s).partitions ≡ s.partitions
unfolding release_resources
release_resources-partitions job s = elim (Option-cases (lookup job.node_list s.nodes)) [
  | inl absent ↦ rw (absent, release_resources)
  | inr (nd, there) ↦ rw (there, release_resources)
]

-- The test of the first loop.
abbrev pub is_due : ℤ → SlurmJob → Bool
is_due now job = is_running job.job_state && leb_ℤ job.end_time.number now

abbrev pub finish : SlurmJob → SlurmJob
finish job = record job { job_state = JobState.completed }

module _ (now id : ℤ) (s : ClusterStore) (job : SlurmJob)
    (found : lookup id s.jobs ≡ some job) where
  complete_step-due :
      is_due now job ≡ true → lookup id (complete_step now id s).jobs ≡ some (finish job)
  unfolding complete_step
  complete_step-due due =
      rw (found, complete_step)
        (rw due (
          ap (lookup id) (release_resources-jobs (finish job) (put_job id (finish job) s))
          ∙ lookup-insert_self id (finish job) s.jobs))

  complete_step-early : is_due now job ≡ false → complete_step now id s ≡ s
  unfolding complete_step
  complete_step-early early = rw (found, complete_step) (rw early)

complete_step-ne :
    (now id i : ℤ) (s : ClusterStore)
    → id ≢ i
    → lookup i (complete_step now id s).jobs ≡ lookup i s.jobs
unfolding complete_step
complete_step-ne now id i s ne = elim (Option-cases (lookup id s.jobs)) [
  | inl absent ↦ rw (absent, complete_step)
  | inr (job, found) ↦
      rw (found, complete_step)
        (elim (Bool-cases (is_due now job)) [
          | inl due ↦ rw due (
              ap (lookup i) (release_resources-jobs (finish job) (put_job id (finish job) s))
              ∙ lookup-insert_ne id i (finish job) s.jobs ne)
          | inr early ↦ rw early
        ])
]

complete_step-partitions :
    (now id : ℤ) (s : ClusterStore) → (complete_step now id s).partitions ≡ s.partitions
unfolding complete_step
complete_step-partitions now id s = elim (Option-cases (lookup id s.jobs)) [
  | inl absent ↦ rw (absent, complete_step)
  | inr (job, found) ↦
      rw (found, complete_step)
        (elim (Bool-cases (is_due now job)) [
          | inl due ↦ rw due (release_resources-partitions (finish job) (put_job id (finish job) s))
          | inr early ↦ rw early
        ])
]

-- A job that is not due stays as it is through the first loop.
pub complete_all-early :
    (now id : ℤ) (job : SlurmJob) (ids : List ℤ) (s : ClusterStore)
    → lookup id s.jobs ≡ some job
    → is_due now job ≡ false
    → lookup id (complete_all now ids s).jobs ≡ some job
unfolding complete_all
complete_all-early now id job [] s found early = found
complete_all-early now id job (i ∷ ids) s found early =
    complete_all-early now id job ids (complete_step now i s)
      (elim (Eq-cases i id) [
        | inl p ↦
            subst (λ (j : ℤ). lookup id (complete_step now j s).jobs ≡ some job) (sym p)
              (ap (λ (t : ClusterStore). lookup id t.jobs)
                  (complete_step-early now id s job found early)
                ∙ found)
        | inr q ↦ complete_step-ne now i id s q ∙ found
      ])
      early

-- A job that is due is completed by it, if the loop meets the job.
pub complete_all-due :
    (now id : ℤ) (job : SlurmJob) (ids : List ℤ) (s : ClusterStore)
    → lookup id s.jobs ≡ some job
    → is_due now job ≡ true
    → Memᴰ id ids
    → lookup id (complete_all now ids s).jobs ≡ some (finish job)
unfolding complete_all
complete_all-due now id job [] s found due m = elim m [ ]
complete_all-due now id job (i ∷ ids) s found due m = elim (Eq-cases i id) [
  | inl p ↦
      complete_all-early now id (finish job) ids (complete_step now i s)
        (subst (λ (j : ℤ). lookup id (complete_step now j s).jobs ≡ some (finish job)) (sym p)
          (complete_step-due now id s job found due))
        refl
  | inr q ↦
      complete_all-due now id job ids (complete_step now i s)
        (complete_step-ne now i id s q ∙ found) due (later m q)
]
  where
    later : Memᴰ id (i ∷ ids) → i ≢ id → Memᴰ id ids
    later (Memᴰ.head p) q = absurd (q (sym p))
    later (Memᴰ.tail t) q = t

pub complete_all-entry :
    (now id : ℤ) (job : SlurmJob) (ids : List ℤ) (s : ClusterStore)
    → lookup id s.jobs ≡ some job
    → (lookup id (complete_all now ids s).jobs ≡ some job)
      ⊎ ((is_due now job ≡ true) × (lookup id (complete_all now ids s).jobs ≡ some (finish job)))
unfolding complete_all
complete_all-entry now id job [] s found = inl found
complete_all-entry now id job (i ∷ ids) s found = elim (Eq-cases i id) [
  | inl p ↦ elim (Bool-cases (is_due now job)) [
    | inl due ↦ inr (due, complete_all-due now id job (i ∷ ids) s found due (Memᴰ.head (sym p)))
    | inr early ↦ inl (complete_all-early now id job (i ∷ ids) s found early)
  ]
  | inr q ↦
      complete_all-entry now id job ids (complete_step now i s)
        (complete_step-ne now i id s q ∙ found)
]

pub complete_all-partitions :
    (now : ℤ) (ids : List ℤ) (s : ClusterStore) → (complete_all now ids s).partitions ≡ s.partitions
unfolding complete_all
complete_all-partitions now [] s = refl
complete_all-partitions now (id ∷ ids) s =
    complete_all-partitions now ids (complete_step now id s) ∙ complete_step-partitions now id s
