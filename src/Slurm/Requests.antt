-- ===== src/Slurm/Requests.antt =====
-- What a submission and a cancellation do to the store, entry by entry.
use velo_infra_playground.Prelude.{
  ◌≡◌, ◌⊎◌, Eq-cases, refl, sym, ap, ◌∙◌, inl, inr, String, none, some, string_Eq, Bool-cases,
  if◌then◌else◌,
}
use velo_infra_playground.Prelude.Int.{ℤ, pos, int_Eq, ltb_ℤ}
use velo_infra_playground.Prelude.Words.{add64}
use velo_infra_playground.Prelude.Dict.{lookup, lookup-insert_self, lookup-insert_ne}
use velo_infra_playground.Slurm.Types.{JobState, SlurmJob, ClusterStore, is_running}
use velo_infra_playground.Slurm.Store.{
  unset, set_to, get_job, submit_job, cancel_job, release_resources,
}
use velo_infra_playground.Slurm.Completion.{release_resources-jobs}

module _ (s : ClusterStore) (now : ℤ) (name partition : String)
    (cpus gpus memory duration : ℤ) where
  -- The job that a submission answers with is pending, has the next number, the request's name,
  -- partition, CPUs, GPUs and duration, its memory marked as set if it is above 0, the submission's
  -- time, and no times of start and end, node or GPUs yet; and it is what the store then gives for
  -- its number. Every other number gives what it gave before, no node or partition changes, and the
  -- next number goes up by one (wrapping at 2^63).
  pub get_job-submit_job :
      (other : ℤ)
      → let (t, job) = submit_job s now name partition cpus gpus memory duration in
        (job ≡ record {
          job_id = s.next_job_id;
          name = name;
          job_state = JobState.pending;
          partition = partition;
          node_list = "";
          cpus = cpus;
          gpus = gpus;
          duration = duration;
          start_time = unset;
          end_time = unset;
          submit_time = set_to now;
          memory = record { number = memory; is_set = ltb_ℤ (pos 0) memory };
          gres_alloc_str = "";
        })
        × (get_job t job.job_id ≡ some job)
        × ((other ≡ job.job_id) ⊎ (get_job t other ≡ get_job s other))
        × (t.nodes ≡ s.nodes)
        × (t.partitions ≡ s.partitions)
        × (t.next_job_id ≡ add64 s.next_job_id (pos 1))
  unfolding submit_job get_job
  get_job-submit_job other = (
    refl,
    lookup-insert_self s.next_job_id _ s.jobs,
    elim (Eq-cases other s.next_job_id) [
      | inl e ↦ inl e
      | inr ne ↦ inr (lookup-insert_ne s.next_job_id other _ s.jobs (λ e. ne (sym e)))
    ],
    refl,
    refl,
    refl,
  )

-- A cancellation of an unknown job changes nothing and says so.
pub cancel_job-unknown :
    (now id : ℤ) (s : ClusterStore) → get_job s id ≡ none → cancel_job now id s ≡ (s, none)
unfolding cancel_job get_job
cancel_job-unknown now id s absent = rw (absent, cancel_job)

-- A cancellation of a known job answers with the job, cancelled and ended now, which is also what
-- the store then gives for it; other jobs stay as they were. The job's node is released if the job
-- was running, and otherwise no node changes.
pub cancel_job-known :
    (now id other : ℤ) (job : SlurmJob) (s : ClusterStore)
    → get_job s id ≡ some job
    → let (t, answer) = cancel_job now id s in
      (answer ≡ some (record job { job_state = JobState.cancelled; end_time = set_to now }))
      × (get_job t id ≡ answer)
      × ((id ≡ other) ⊎ (get_job t other ≡ get_job s other))
      × (t.nodes ≡ (if is_running job.job_state then (release_resources job s).nodes else s.nodes))
unfolding cancel_job get_job
cancel_job-known now id other job s found =
    rw (found, cancel_job)
      (elim (Bool-cases (is_running job.job_state)) [
        | inl runs ↦ rw runs (
          refl,
          lookup-insert_self id _ (release_resources job s).jobs,
          elim (Eq-cases id other) [
            | inl e ↦ inl e
            | inr ne ↦ inr (
                lookup-insert_ne id other _ (release_resources job s).jobs ne
                ∙ ap (lookup other) (release_resources-jobs job s))
          ],
          refl,
        )
        | inr rests ↦ rw rests (
          refl,
          lookup-insert_self id _ s.jobs,
          elim (Eq-cases id other) [
            | inl e ↦ inl e
            | inr ne ↦ inr (lookup-insert_ne id other _ s.jobs ne)
          ],
          refl,
        )
      ])
