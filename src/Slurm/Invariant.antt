-- ===== src/Slurm/Invariant.antt =====
-- The invariant of the cluster: each node's counters are the sums of what the jobs that run on it
-- ask for, and stay within its capacity.
use velo_infra_playground.Prelude.{ℕ, ◌≡◌, String, false, some, arith, inl, inr, string_Eq}
use velo_infra_playground.Prelude.Int.{ℤ, int_Eq, ◌<ℤ◌}
use velo_infra_playground.Prelude.Dict.{Dict, lookup, insert, lookup-insert_cases}
use velo_infra_playground.Slurm.Types.{SlurmNode, SlurmJob, ClusterStore, is_running}
use velo_infra_playground.Slurm.Store.{put_job}
use velo_infra_playground.Slurm.Accounting.{IsSane, Holds}
use velo_infra_playground.Slurm.Usage.{
  cpus_of, gpus_of, memory_of, usage, demand_idle, usage-insert,
}

-- Node k's counters agree with the jobs.
abbrev pub Agrees : String → Dict ℤ SlurmJob → SlurmNode → Type 0
Agrees k jobs nd = Holds k (usage cpus_of k jobs) (usage gpus_of k jobs) (usage memory_of k jobs) nd

pub record Inv (s : ClusterStore) : Type 0 where
  pub nodes_agree : (k : String) (nd : SlurmNode) → lookup k s.nodes ≡ some nd → Agrees k s.jobs nd
  pub jobs_sane : (id : ℤ) (job : SlurmJob) → lookup id s.jobs ≡ some job → IsSane job
  pub jobs_below : (id : ℤ) (job : SlurmJob) → lookup id s.jobs ≡ some job → id <ℤ s.next_job_id

pub cast :
    (k : String) (c c' g g' m m' : ℕ) (nd : SlurmNode)
    → c' ≡ c
    → g' ≡ g
    → m' ≡ m
    → Holds k c g m nd
    → Holds k c' g' m' nd
cast k c c' g g' m m' nd p q r h = rw (p, q, r) h

module _ (s : ClusterStore) (inv : Inv s) (id : ℤ) (old new : SlurmJob) where
  -- A write of a sane entry over an old one, where the nodes then agree with the entries.
  pub Inv-put :
      (nodes : Dict String SlurmNode)
      → lookup id s.jobs ≡ some old
      → IsSane new
      → ((k : String) (nd : SlurmNode)
          → lookup k nodes ≡ some nd
          → Agrees k (insert id new s.jobs) nd)
      → Inv (put_job id new (record s { nodes = nodes }))
  Inv-put nodes found sane agree = record {
    nodes_agree = agree;
    jobs_sane = λ i j e. elim (lookup-insert_cases id i new s.jobs e) [
      | inl p ↦ rw (← p.1) sane
      | inr q ↦ inv.jobs_sane i j q.1
    ];
    jobs_below = λ i j e. elim (lookup-insert_cases id i new s.jobs e) [
      | inl p ↦ rw (← p.0) (inv.jobs_below id old found)
      | inr q ↦ inv.jobs_below i j q.1
    ];
  }

  -- A change of an entry that neither runs before nor after moves no sum.
  pub Inv-put_idle :
      lookup id s.jobs ≡ some old
      → is_running old.job_state ≡ false
      → is_running new.job_state ≡ false
      → IsSane new
      → Inv (put_job id new s)
  Inv-put_idle found before after sane = Inv-put s.nodes found sane λ k nd e.
      cast k _ _ _ _ _ _ nd (same cpus_of k) (same gpus_of k) (same memory_of k)
        (inv.nodes_agree k nd e)
    where
      same :
          (amount : SlurmJob → ℤ) (k : String)
          → usage amount k (insert id new s.jobs) ≡ usage amount k s.jobs
      same amount k = omega (
        arith,
        usage-insert amount k id s.jobs old new found,
        demand_idle amount k old before,
        demand_idle amount k new after,
      )
