-- ===== src/Slurm/Moves.antt =====
-- The two moves that change a node's counters, a start of a job and a release of one, keep the
-- invariant.
use velo_infra_playground.Prelude.{
  ◌+◌, ◌≡◌, ◌≢◌, refl, sym, ap, ◌∙◌, String, true, false, some, arith, inl, inr, string_Eq,
  Eq-cases, Option-cases, none-ne-some,
}
use velo_infra_playground.Prelude.Int.{ℤ, pos_part, int_Eq}
use velo_infra_playground.Prelude.Dict.{lookup, insert, lookup-insert_cases}
use velo_infra_playground.Slurm.Types.{SlurmNode, SlurmJob, ClusterStore, is_running}
use velo_infra_playground.Slurm.Store.{put_job, release_node, release_resources}
use velo_infra_playground.Slurm.Scheduler.{try_node, start_job}
use velo_infra_playground.Slurm.Accounting.{IsSane, try_node-Holds, release_node-Holds}
use velo_infra_playground.Slurm.Usage.{
  cpus_of, gpus_of, memory_of, usage, demand_idle, demand_here, demand_elsewhere, usage-insert,
}
use velo_infra_playground.Slurm.Invariant.{Agrees, Inv, cast, Inv-put}

start_job-IsSane :
    (job : SlurmJob) (k : String) (now : ℤ) → IsSane job → IsSane (start_job job k now)
unfolding start_job
start_job-IsSane job k now s = record {
  cpus_nonneg = s.cpus_nonneg;
  gpus_nonneg = s.gpus_nonneg;
  memory_nonneg = s.memory_nonneg;
  memory_set = s.memory_set;
}

module _ (s : ClusterStore) (inv : Inv s) (id : ℤ) (job : SlurmJob)
    (found : lookup id s.jobs ≡ some job) where
  -- A pending job that starts on a node with room.
  module _ (k : String) (nd nd' : SlurmNode) (now : ℤ) (there : lookup k s.nodes ≡ some nd)
      (waits : is_running job.job_state ≡ false) (fits : try_node nd job ≡ some nd') where
    started : SlurmJob
    started = start_job job k now

    usage_here :
        (amount : SlurmJob → ℤ)
        → amount started ≡ amount job
        → usage amount k (insert id started s.jobs) ≡ usage amount k s.jobs + pos_part (amount job)
    unfolding started start_job
    usage_here amount same = omega (
      arith,
      usage-insert amount k id s.jobs job started found,
      demand_idle amount k job waits,
      demand_here amount k started refl refl ∙ ap pos_part same,
    )

    usage_elsewhere :
        (amount : SlurmJob → ℤ) (j : String)
        → k ≢ j
        → usage amount j (insert id started s.jobs) ≡ usage amount j s.jobs
    unfolding started start_job
    usage_elsewhere amount j ne = omega (
      arith,
      usage-insert amount j id s.jobs job started found,
      demand_idle amount j job waits,
      demand_elsewhere amount j started ne,
    )

    pub Inv-start :
        Inv (put_job id (start_job job k now) (record s { nodes = insert k nd' s.nodes }))
    unfolding started start_job
    Inv-start =
        Inv-put s inv id job started (insert k nd' s.nodes) found
          (start_job-IsSane job k now (inv.jobs_sane id job found))
          λ j x e. elim (lookup-insert_cases k j nd' s.nodes e) [
            | inl p ↦
                rw (← p.0, ← p.1)
                  (cast k _ _ _ _ _ _ nd' (usage_here cpus_of refl) (usage_here gpus_of refl)
                    (usage_here memory_of refl)
                    (try_node-Holds k _ _ _ nd nd' job (inv.nodes_agree k nd there)
                      (inv.jobs_sane id job found) fits))
            | inr q ↦
                cast j _ _ _ _ _ _ x (usage_elsewhere cpus_of j q.0) (usage_elsewhere gpus_of j q.0)
                  (usage_elsewhere memory_of j q.0) (inv.nodes_agree j x q.1)
          ]

  -- A running job that stops, its entry becoming `new`.
  module _ (new : SlurmJob) (runs : is_running job.job_state ≡ true)
      (stops : is_running new.job_state ≡ false) (sane : IsSane new) where
    usage_freed :
        (amount : SlurmJob → ℤ)
        → usage amount job.node_list s.jobs
          ≡ usage amount job.node_list (insert id new s.jobs) + pos_part (amount job)
    usage_freed amount = omega (
      arith,
      usage-insert amount job.node_list id s.jobs job new found,
      demand_idle amount job.node_list new stops,
      demand_here amount job.node_list job runs refl,
    )

    usage_kept :
        (amount : SlurmJob → ℤ) (j : String)
        → job.node_list ≢ j
        → usage amount j (insert id new s.jobs) ≡ usage amount j s.jobs
    usage_kept amount j ne = omega (
      arith,
      usage-insert amount j id s.jobs job new found,
      demand_idle amount j new stops,
      demand_elsewhere amount j job ne,
    )

    kept :
        (j : String) (x : SlurmNode)
        → job.node_list ≢ j
        → lookup j s.nodes ≡ some x
        → Agrees j (insert id new s.jobs) x
    kept j x ne e =
        cast j _ _ _ _ _ _ x (usage_kept cpus_of j ne) (usage_kept gpus_of j ne)
          (usage_kept memory_of j ne) (inv.nodes_agree j x e)

    freed :
        (nd : SlurmNode)
        → lookup job.node_list s.nodes ≡ some nd
        → Agrees job.node_list (insert id new s.jobs) (release_node job nd)
    freed nd there =
        release_node-Holds job.node_list _ _ _ nd job
          (cast job.node_list _ _ _ _ _ _ nd (sym (usage_freed cpus_of)) (sym (usage_freed gpus_of))
            (sym (usage_freed memory_of)) (inv.nodes_agree job.node_list nd there))
          (inv.jobs_sane id job found)

    pub Inv-stop : Inv (put_job id new (release_resources job s))
    unfolding release_resources
    Inv-stop = elim (Option-cases (lookup job.node_list s.nodes)) [
      | inl absent ↦
          rw (absent, release_resources)
            (Inv-put s inv id job new s.nodes found sane λ j x e. elim (Eq-cases job.node_list j) [
              | inl p ↦ absurd (none-ne-some (sym absent ∙ ap (λ t. lookup t s.nodes) p ∙ e))
              | inr q ↦ kept j x q e
            ])
      | inr (nd, there) ↦
          rw (there, release_resources)
            (Inv-put s inv id job new (insert job.node_list (release_node job nd) s.nodes) found
              sane
              λ j x e. elim (lookup-insert_cases job.node_list j (release_node job nd) s.nodes e) [
                | inl p ↦ rw (← p.0, ← p.1) (freed nd there)
                | inr q ↦ kept j x q.0 q.1
              ])
    ]
