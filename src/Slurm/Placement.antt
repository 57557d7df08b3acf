-- ===== src/Slurm/Placement.antt =====
-- First-fit placement (`tryScheduleJob`) against its description: the job starts on the first node
-- of the partition's list that has room for it, and stays pending where none has.
use velo_infra_playground.Prelude.{
  ℕ, ◌+◌, ◌≤◌, ◌≡◌, refl, sym, ap, subst, ◌∙◌, inl, inr, String, List, [], ◌∷◌, ◌++◌, All, true,
  none, some, none-ne-some, some_inj, arith, string_Eq, Option-cases,
}
use velo_infra_playground.Prelude.Int.{ℤ, pos, pos_part, int_Eq, ◌≤ℤ◌, ◌+ℤ◌}
use velo_infra_playground.Prelude.Words.{sub64-pos}
use velo_infra_playground.Prelude.Dict.{lookup, lookup-insert_self}
use velo_infra_playground.Prelude.Text.{split}
use velo_infra_playground.Slurm.Types.{
  Gres, SlurmNode, SlurmPartition, SlurmJob, JobState, ClusterStore, is_pending,
}
use velo_infra_playground.Slurm.Store.{put_job, new_cluster_store}
use velo_infra_playground.Slurm.Reach.{Reach, Reach-Inv}
use velo_infra_playground.Slurm.Scheduler.{
  find_gpu, try_node, start_job, try_nodes, try_schedule_job, schedule_step,
}
use velo_infra_playground.Slurm.Accounting.{IsSane, Holds, try_node-Holds}
use velo_infra_playground.Slurm.Invariant.{Inv}

-- Node k exists, and what it has in use leaves room for what the job asks.
pub record HasRoom (s : ClusterStore) (job : SlurmJob) (k : String) : Type 0 where
  pub node : SlurmNode
  pub gpu : Gres
  pub there : lookup k s.nodes ≡ some node
  pub one_gpu : node.gres_list ≡ gpu ∷ []
  pub cpu_room : node.cpus_used +ℤ job.cpus ≤ℤ node.cpus
  pub memory_room : node.memory_used +ℤ job.memory.number ≤ℤ node.memory
  pub gpu_room : gpu.used +ℤ job.gpus ≤ℤ gpu.count

numbers : (x y z : ℤ) (a b n : ℕ) → x ≡ pos a → y ≡ pos b → z ≡ pos n → x +ℤ y ≤ℤ z → a + b ≤ n
unfolding ◌+ℤ◌
numbers x y z a b n p q r h = ground arith

module _ (k : String) (c g m : ℕ) (nd : SlurmNode) (job : SlurmJob) (h : Holds k c g m nd)
    (sane : IsSane job) where
  -- The guards of the loop say exactly that there is room.
  try_node-room :
      {nd' : SlurmNode}
      → try_node nd job ≡ some nd'
      → (nd.cpus_used +ℤ job.cpus ≤ℤ nd.cpus)
        × (nd.memory_used +ℤ job.memory.number ≤ℤ nd.memory)
        × (pos g +ℤ job.gpus ≤ℤ pos h.gpu_cap)
  unfolding try_node find_gpu ◌+ℤ◌
  try_node-room e =
      ground (arith, sub64-pos h.cpu_cap c, sub64-pos h.mem_cap m, sub64-pos h.gpu_cap g)

  full_numbers :
      try_node nd job ≡ none
      → c + pos_part job.cpus ≤ h.cpu_cap
      → m + pos_part job.memory.number ≤ h.mem_cap
      → g + pos_part job.gpus ≤ h.gpu_cap
      → ⊥
  unfolding try_node find_gpu
  full_numbers e p q r =
      ground (arith, sub64-pos h.cpu_cap c, sub64-pos h.mem_cap m, sub64-pos h.gpu_cap g)

  try_node-full :
      try_node nd job ≡ none
      → nd.cpus_used +ℤ job.cpus ≤ℤ nd.cpus
      → nd.memory_used +ℤ job.memory.number ≤ℤ nd.memory
      → pos g +ℤ job.gpus ≤ℤ pos h.gpu_cap
      → ⊥
  try_node-full e p q r =
      full_numbers e (numbers _ _ _ c _ h.cpu_cap h.cpus_used sane.cpus_nonneg h.cpus p)
        (numbers _ _ _ m _ h.mem_cap h.memory_used sane.memory_nonneg h.memory q)
        (numbers _ _ _ g _ h.gpu_cap refl sane.gpus_nonneg refl r)

-- What the placement loop comes to, on the store that it began with: no node of the list has room
-- and nothing changes, or the first one that has room is taken.
pub data Outcome (s : ClusterStore) (id : ℤ) (job : SlurmJob) (now : ℤ)
    : List String → ClusterStore → Type 0 where
  waits : {ks : List String} → All (λ k. ¬ HasRoom s job k) ks → Outcome s id job now ks s
  starts :
      {ks : List String} {t : ClusterStore} (before : List String) (k : String)
      (after : List String)
      → ks ≡ before ++ (k ∷ after)
      → All (λ j. ¬ HasRoom s job j) before
      → HasRoom s job k
      → lookup id t.jobs ≡ some (start_job job k now)
      → Outcome s id job now ks t

only_gpu : (a b : Gres) → a ∷ [] ≡ b ∷ [] → a ≡ b
only_gpu a b h = cc

module _ (s : ClusterStore) (inv : Inv s) (id : ℤ) (job : SlurmJob) (now : ℤ)
    (found : lookup id s.jobs ≡ some job) where
  skip :
      (k : String) (ks : List String) (t : ClusterStore)
      → ¬ HasRoom s job k
      → Outcome s id job now ks t
      → Outcome s id job now (k ∷ ks) t
  skip k ks t closed (waits full) = waits (closed, full)
  skip k ks t closed (starts before j after e full room run) =
      starts (k ∷ before) j after (ap (λ l. k ∷ l) e) (closed, full) room run

  absent-¬HasRoom : (k : String) → lookup k s.nodes ≡ none → ¬ HasRoom s job k
  absent-¬HasRoom k e h = none-ne-some (sym e ∙ h.there)

  full-¬HasRoom :
      (k : String) (nd : SlurmNode)
      → lookup k s.nodes ≡ some nd
      → try_node nd job ≡ none
      → ¬ HasRoom s job k
  full-¬HasRoom k nd e full h =
      let same : h.node ≡ nd = some_inj (sym h.there ∙ e) in
      let held = inv.nodes_agree k nd e in
      let gpu =
        only_gpu h.gpu _ (sym h.one_gpu ∙ ap (λ (n : SlurmNode). n.gres_list) same ∙ held.gres) in
      try_node-full k _ _ _ nd job held (inv.jobs_sane id job found) full
        (subst (λ (n : SlurmNode). n.cpus_used +ℤ job.cpus ≤ℤ n.cpus) same h.cpu_room)
        (subst (λ (n : SlurmNode). n.memory_used +ℤ job.memory.number ≤ℤ n.memory) same
          h.memory_room)
        (subst (λ (r : Gres). r.used +ℤ job.gpus ≤ℤ r.count) gpu h.gpu_room)

  roomy :
      (k : String) (nd nd' : SlurmNode)
      → lookup k s.nodes ≡ some nd
      → try_node nd job ≡ some nd'
      → HasRoom s job k
  roomy k nd nd' there fits =
      let held = inv.nodes_agree k nd there in
      let (cpu, memory, gpu) =
        try_node-room k _ _ _ nd job held (inv.jobs_sane id job found) fits in
      record {
        node = nd;
        gpu = record { name = "gpu"; kind = held.kind; count = pos held.gpu_cap; used = _ };
        there = there;
        one_gpu = held.gres;
        cpu_room = cpu;
        memory_room = memory;
        gpu_room = gpu;
      }

  try_nodes-Outcome : (ks : List String) → Outcome s id job now ks (try_nodes ks id job now s)
  unfolding try_nodes
  try_nodes-Outcome [] = waits tt
  try_nodes-Outcome (k ∷ ks) = elim (Option-cases (lookup k s.nodes)) [
    | inl absent ↦
        rw (absent, try_nodes) (skip k ks _ (absent-¬HasRoom k absent) (try_nodes-Outcome ks))
    | inr (nd, there) ↦
        rw (there, try_nodes)
          (elim (Option-cases (try_node nd job)) [
            | inl full ↦
                rw full (skip k ks _ (full-¬HasRoom k nd there full) (try_nodes-Outcome ks))
            | inr (nd', fits) ↦
                let held =
                  try_node-Holds k _ _ _ nd nd' job (inv.nodes_agree k nd there)
                    (inv.jobs_sane id job found) fits in
                rw fits (
                  starts [] k ks refl tt (roomy k nd nd' there fits) (
                    lookup-insert_self id (start_job job nd'.name now) s.jobs
                    ∙ ap (λ name. some (start_job job name now)) held.named))
          ])
  ]

-- In every cluster that submissions which ask for no negative amount, cancellations and ticks lead
-- to, as long as job numbers last, a pending job of a known partition, when its turn in a tick comes,
-- starts on the first node of the partition's list that has room for it, or stays as it is where
-- none has.
pub schedule_step-first_fit :
    (s : ClusterStore) (id : ℤ) (job : SlurmJob) (part : SlurmPartition) (now : ℤ)
    → Reach new_cluster_store s
    → lookup id s.jobs ≡ some job
    → is_pending job.job_state ≡ true
    → lookup job.partition s.partitions ≡ some part
    → Outcome s id job now (split b',' part.nodes) (schedule_step now id s)
unfolding schedule_step try_schedule_job
schedule_step-first_fit s id job part now reach found idle there =
    rw (found, schedule_step)
      (rw idle (
        rw (there, try_schedule_job)
          (try_nodes-Outcome s (Reach-Inv reach) id job now found (split b',' part.nodes))))

-- In an unknown partition it fails, and no node is touched.
pub schedule_step-unknown :
    (s : ClusterStore) (id : ℤ) (job : SlurmJob) (now : ℤ)
    → lookup id s.jobs ≡ some job
    → is_pending job.job_state ≡ true
    → lookup job.partition s.partitions ≡ none
    → schedule_step now id s ≡ put_job id (record job { job_state = JobState.failed }) s
unfolding schedule_step try_schedule_job
schedule_step-unknown s id job now found idle absent =
    rw (found, schedule_step) (rw idle (rw (absent, try_schedule_job)))
