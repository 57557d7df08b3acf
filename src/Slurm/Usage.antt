-- ===== src/Slurm/Usage.antt =====
-- What the running jobs of a cluster demand of each node, and how one change of a job moves it.
use velo_infra_playground.Prelude.{
  ℕ, ◌+◌, ◌≡◌, ◌≢◌, String, true, false, ◌&&◌, some, none, arith, if◌then◌else◌, ◌==◌, string_Eq,
  beq_self, beq_ne,
}
use velo_infra_playground.Prelude.Int.{ℤ, pos_part, int_Eq}
use velo_infra_playground.Prelude.Dict.{
  Dict, lookup, insert, total_of, total_of-insert, total_of-insert_new,
}
use velo_infra_playground.Slurm.Types.{SlurmJob, is_running}

abbrev pub cpus_of : SlurmJob → ℤ
cpus_of job = job.cpus

abbrev pub gpus_of : SlurmJob → ℤ
gpus_of job = job.gpus

abbrev pub memory_of : SlurmJob → ℤ
memory_of job = job.memory.number

-- What the job takes of node k: its amount while it runs there, and else nothing.
unfoldable pub demand : (SlurmJob → ℤ) → String → SlurmJob → ℕ
demand amount k job =
    if is_running job.job_state && job.node_list == k then pos_part (amount job) else 0

unfoldable pub usage : (SlurmJob → ℤ) → String → Dict ℤ SlurmJob → ℕ
usage amount k jobs = total_of (demand amount k) jobs

pub demand_idle :
    (amount : SlurmJob → ℤ) (k : String) (job : SlurmJob)
    → is_running job.job_state ≡ false
    → demand amount k job ≡ 0
unfolding demand
demand_idle amount k job h = rw h

pub demand_here :
    (amount : SlurmJob → ℤ) (k : String) (job : SlurmJob)
    → is_running job.job_state ≡ true
    → job.node_list ≡ k
    → demand amount k job ≡ pos_part (amount job)
unfolding demand
demand_here amount k job h e = ground (arith, h, e, beq_self k)

pub demand_elsewhere :
    (amount : SlurmJob → ℤ) (k : String) (job : SlurmJob)
    → job.node_list ≢ k
    → demand amount k job ≡ 0
unfolding demand
demand_elsewhere amount k job h = ground (arith, beq_ne job.node_list k h)

module _ (amount : SlurmJob → ℤ) (k : String) (id : ℤ) (jobs : Dict ℤ SlurmJob) where
  -- The old job's demand leaves the sum, and the new one's enters it.
  pub usage-insert :
      (old new : SlurmJob)
      → lookup id jobs ≡ some old
      → usage amount k (insert id new jobs) + demand amount k old
        ≡ usage amount k jobs + demand amount k new
  unfolding usage
  usage-insert old new h = total_of-insert (demand amount k) id new old jobs h

  pub usage-insert_new :
      (new : SlurmJob)
      → lookup id jobs ≡ none
      → usage amount k (insert id new jobs) ≡ usage amount k jobs + demand amount k new
  unfolding usage
  usage-insert_new new h = total_of-insert_new (demand amount k) id new jobs h
