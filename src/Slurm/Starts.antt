-- ===== src/Slurm/Starts.antt =====
-- What the second loop of a tick (`reconcileJobs`) does to one job.
use velo_infra_playground.Prelude.{
  ◌≡◌, ◌≢◌, refl, sym, ap, subst, ◌∙◌, ◌⊎◌, inl, inr, String, List, [], ◌∷◌, true, false, none,
  some, string_Eq, Bool-cases, Option-cases, Eq-cases,
}
use velo_infra_playground.Prelude.Int.{ℤ, int_Eq}
use velo_infra_playground.Prelude.Dict.{Dict, lookup, lookup-insert_self, lookup-insert_ne}
use velo_infra_playground.Prelude.Text.{split}
use velo_infra_playground.Slurm.Types.{JobState, SlurmJob, SlurmPartition, ClusterStore, is_pending}
use velo_infra_playground.Slurm.Scheduler.{
  try_node, start_job, try_nodes, try_schedule_job, schedule_step, schedule_all,
}

abbrev pub fail : SlurmJob → SlurmJob
fail job = record job { job_state = JobState.failed }

-- What becomes of a pending job in the second loop.
pub data Scheduled (now : ℤ) (partitions : Dict String SlurmPartition) (job new : SlurmJob)
    : Type 0 where
  same : new ≡ job → Scheduled now partitions job new
  started : (k : String) → new ≡ start_job job k now → Scheduled now partitions job new
  refused :
      lookup job.partition partitions ≡ none → new ≡ fail job → Scheduled now partitions job new

module _ (now id : ℤ) (s : ClusterStore) (job : SlurmJob)
    (found : lookup id s.jobs ≡ some job) where
  try_nodes-entry :
      (ks : List String)
      → (lookup id (try_nodes ks id job now s).jobs ≡ some job)
        ⊎ ((k : String) × (lookup id (try_nodes ks id job now s).jobs ≡ some (start_job job k now)))
  unfolding try_nodes
  try_nodes-entry [] = inl found
  try_nodes-entry (k ∷ ks) = elim (Option-cases (lookup k s.nodes)) [
    | inl absent ↦ rw (absent, try_nodes) (try_nodes-entry ks)
    | inr (nd, there) ↦
        rw (there, try_nodes)
          (elim (Option-cases (try_node nd job)) [
            | inl full ↦ rw full (try_nodes-entry ks)
            | inr (nd', fits) ↦
                rw fits (inr (nd'.name, lookup-insert_self id (start_job job nd'.name now) s.jobs))
          ])
  ]

  -- The fate of a pending job whose turn has come.
  schedule_step-pending :
      is_pending job.job_state ≡ true
      → (new : SlurmJob) × (lookup id (schedule_step now id s).jobs ≡ some new)
        × Scheduled now s.partitions job new
  unfolding schedule_step try_schedule_job
  schedule_step-pending idle = elim (Option-cases (lookup job.partition s.partitions)) [
    | inl absent ↦ (
      fail job,
      rw (found, schedule_step)
          (rw idle (rw (absent, try_schedule_job) (lookup-insert_self id (fail job) s.jobs))),
      refused absent refl,
    )
    | inr (part, there) ↦ elim (try_nodes-entry (split b',' part.nodes)) [
      | inl stays ↦
          (job, rw (found, schedule_step) (rw idle (rw (there, try_schedule_job) stays)), same refl)
      | inr (k, runs) ↦ (
        start_job job k now,
        rw (found, schedule_step) (rw idle (rw (there, try_schedule_job) runs)),
        started k refl,
      )
    ]
  ]

  schedule_step-settled : is_pending job.job_state ≡ false → schedule_step now id s ≡ s
  unfolding schedule_step
  schedule_step-settled h = rw (found, schedule_step) (rw h)

-- A turn of another job leaves the entry alone, and no turn changes the partitions.
module _ (now id i : ℤ) (job : SlurmJob) (s : ClusterStore) (ne : id ≢ i) where
  try_nodes-ne : (ks : List String) → lookup i (try_nodes ks id job now s).jobs ≡ lookup i s.jobs
  unfolding try_nodes
  try_nodes-ne [] = refl
  try_nodes-ne (k ∷ ks) = elim (Option-cases (lookup k s.nodes)) [
    | inl absent ↦ rw (absent, try_nodes) (try_nodes-ne ks)
    | inr (nd, there) ↦
        rw (there, try_nodes)
          (elim (Option-cases (try_node nd job)) [
            | inl full ↦ rw full (try_nodes-ne ks)
            | inr (nd', fits) ↦
                rw fits (lookup-insert_ne id i (start_job job nd'.name now) s.jobs ne)
          ])
  ]

schedule_step-ne :
    (now id i : ℤ) (s : ClusterStore)
    → id ≢ i
    → lookup i (schedule_step now id s).jobs ≡ lookup i s.jobs
unfolding schedule_step try_schedule_job
schedule_step-ne now id i s ne = elim (Option-cases (lookup id s.jobs)) [
  | inl absent ↦ rw (absent, schedule_step)
  | inr (job, found) ↦
      rw (found, schedule_step)
        (elim (Bool-cases (is_pending job.job_state)) [
          | inl idle ↦ rw idle (elim (Option-cases (lookup job.partition s.partitions)) [
            | inl absent ↦
                rw (absent, try_schedule_job) (lookup-insert_ne id i (fail job) s.jobs ne)
            | inr (part, there) ↦
                rw (there, try_schedule_job)
                  (try_nodes-ne now id i job s ne (split b',' part.nodes))
          ])
          | inr settled ↦ rw settled
        ])
]

try_nodes-partitions :
    (now id : ℤ) (job : SlurmJob) (s : ClusterStore) (ks : List String)
    → (try_nodes ks id job now s).partitions ≡ s.partitions
unfolding try_nodes
try_nodes-partitions now id job s [] = refl
try_nodes-partitions now id job s (k ∷ ks) = elim (Option-cases (lookup k s.nodes)) [
  | inl absent ↦ rw (absent, try_nodes) (try_nodes-partitions now id job s ks)
  | inr (nd, there) ↦
      rw (there, try_nodes)
        (elim (Option-cases (try_node nd job)) [
          | inl full ↦ rw full (try_nodes-partitions now id job s ks)
          | inr (nd', fits) ↦ rw fits
        ])
]

schedule_step-partitions :
    (now id : ℤ) (s : ClusterStore) → (schedule_step now id s).partitions ≡ s.partitions
unfolding schedule_step try_schedule_job
schedule_step-partitions now id s = elim (Option-cases (lookup id s.jobs)) [
  | inl absent ↦ rw (absent, schedule_step)
  | inr (job, found) ↦
      rw (found, schedule_step)
        (elim (Bool-cases (is_pending job.job_state)) [
          | inl idle ↦ rw idle (elim (Option-cases (lookup job.partition s.partitions)) [
            | inl absent ↦ rw (absent, try_schedule_job)
            | inr (part, there) ↦
                rw (there, try_schedule_job)
                  (try_nodes-partitions now id job s (split b',' part.nodes))
          ])
          | inr settled ↦ rw settled
        ])
]

-- A job that is not pending stays as it is through the second loop.
pub schedule_all-settled :
    (now id : ℤ) (job : SlurmJob) (ids : List ℤ) (s : ClusterStore)
    → lookup id s.jobs ≡ some job
    → is_pending job.job_state ≡ false
    → lookup id (schedule_all now ids s).jobs ≡ some job
unfolding schedule_all
schedule_all-settled now id job [] s found h = found
schedule_all-settled now id job (i ∷ ids) s found h =
    schedule_all-settled now id job ids (schedule_step now i s)
      (elim (Eq-cases i id) [
        | inl p ↦
            subst (λ (j : ℤ). lookup id (schedule_step now j s).jobs ≡ some job) (sym p)
              (ap (λ (t : ClusterStore). lookup id t.jobs)
                  (schedule_step-settled now id s job found h)
                ∙ found)
        | inr q ↦ schedule_step-ne now i id s q ∙ found
      ])
      h

start_job-settled :
    (job : SlurmJob) (k : String) (now : ℤ) → is_pending (start_job job k now).job_state ≡ false
unfolding start_job
start_job-settled job k now = refl

-- An entry that job's turn leads to, in the store t, by one of the ways of `Scheduled`.
abbrev Fate : ℤ → ℤ → Dict String SlurmPartition → SlurmJob → ClusterStore → Type 0
Fate now id partitions job t =
    (new : SlurmJob) × (lookup id t.jobs ≡ some new) × Scheduled now partitions job new

-- After the job's own turn: a job that has stayed pending goes on, any other is settled.
after_turn :
    (now id : ℤ) (job : SlurmJob) (ids : List ℤ) (partitions : Dict String SlurmPartition)
    (t : ClusterStore)
    → (lookup id t.jobs ≡ some job → Fate now id partitions job (schedule_all now ids t))
    → is_pending job.job_state ≡ true
    → Fate now id partitions job t
    → Fate now id partitions job (schedule_all now ids t)
after_turn now id job ids partitions t again idle (new, e, same p) = again (e ∙ ap some p)
after_turn now id job ids partitions t again idle (new, e, started k p) = (
  start_job job k now,
  schedule_all-settled now id (start_job job k now) ids t (e ∙ ap some p)
      (start_job-settled job k now),
  started k refl,
)
after_turn now id job ids partitions t again idle (new, e, refused absent p) = (
  fail job,
  schedule_all-settled now id (fail job) ids t (e ∙ ap some p) refl,
  refused absent refl,
)

-- The fate of a pending job in the whole loop.
pub schedule_all-pending :
    (now id : ℤ) (job : SlurmJob) (ids : List ℤ) (s : ClusterStore)
    → lookup id s.jobs ≡ some job
    → is_pending job.job_state ≡ true
    → Fate now id s.partitions job (schedule_all now ids s)
unfolding schedule_all
schedule_all-pending now id job [] s found idle = (job, found, same refl)
schedule_all-pending now id job (i ∷ ids) s found idle =
    let t = schedule_step now i s in
    let again : lookup id t.jobs ≡ some job
        → Fate now id s.partitions job (schedule_all now ids t) =
      λ e.
        subst (λ (ps : Dict String SlurmPartition). Fate now id ps job (schedule_all now ids t))
          (schedule_step-partitions now i s) (schedule_all-pending now id job ids t e idle) in
    elim (Eq-cases i id) [
      | inl p ↦ after_turn now id job ids s.partitions t again idle (
          subst (λ (j : ℤ). Fate now id s.partitions job (schedule_step now j s)) (sym p)
            (schedule_step-pending now id s job found idle))
      | inr q ↦ again (schedule_step-ne now i id s q ∙ found)
    ]
