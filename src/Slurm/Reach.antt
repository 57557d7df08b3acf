-- ===== src/Slurm/Reach.antt =====
-- The clusters that the daemon can come to: any sequence of submissions, cancellations and ticks
-- from the initial store.
use velo_infra_playground.Prelude.{
  ℕ, ◌^◌, ◌≡◌, ◌≢◌, ◌↔◌, ◌<◌, refl, String, List, [], ◌∷◌, some, none-ne-some, arith, string_Eq,
}
use velo_infra_playground.Prelude.Int.{ℤ, pos, int_Eq, ◌≤ℤ◌, ◌+ℤ◌}
use velo_infra_playground.Prelude.Words.{IsInt64, add64, wrap64, add64-pos}
use velo_infra_playground.Prelude.Dict.{Entries-lookup, lookup, total_of}
use velo_infra_playground.Slurm.Types.{NodeState, SlurmNode, Gres, ClusterStore}
use velo_infra_playground.Slurm.Store.{
  new_node, new_cluster_store, cancel_job, submit_job, occupancy,
}
use velo_infra_playground.Slurm.Scheduler.{reconcile_jobs}
use velo_infra_playground.Slurm.Accounting.{Holds}
use velo_infra_playground.Slurm.Usage.{cpus_of, gpus_of, memory_of, usage}
use velo_infra_playground.Slurm.Invariant.{Agrees, Inv}
use velo_infra_playground.Slurm.Safety.{
  IsSaneRequest, submit_job-Inv, cancel_job-Inv, reconcile_jobs-Inv,
}

new_node-Holds :
    (name kind : String) (cpus memory gpus : ℕ)
    → cpus < 2 ^ 63
    → memory < 2 ^ 63
    → gpus < 2 ^ 63
    → Holds name 0 0 0 (new_node name (pos cpus) (pos memory) kind (pos gpus))
unfolding new_node occupancy add64 wrap64 ◌+ℤ◌
new_node-Holds name kind cpus memory gpus h i j = record {
  named = refl;
  cpu_cap = cpus;
  gpu_cap = gpus;
  mem_cap = memory;
  kind = kind;
  cpus = refl;
  memory = refl;
  cpus_used = refl;
  memory_used = refl;
  gres = refl;
  cpu_fits = omega arith;
  gpu_fits = omega arith;
  mem_fits = omega arith;
  cpu_word = h;
  gpu_word = j;
  mem_word = i;
  state = refl;
}

new_cluster_store-Inv : Inv new_cluster_store
unfolding new_cluster_store usage total_of lookup
new_cluster_store-Inv = record {
  nodes_agree =
      Entries-lookup (λ k nd. Agrees k [] nd) new_cluster_store.nodes
        (
          new_node-Holds "node-1" "h100" 64 256000 8 (omega arith) (omega arith) (omega arith),
          (
            new_node-Holds "node-2" "h100" 64 256000 8 (omega arith) (omega arith) (omega arith),
            (
              new_node-Holds "node-3" "a100" 32 128000 4 (omega arith) (omega arith) (omega arith),
              (
                new_node-Holds "node-4" "a100" 32 128000 4 (omega arith) (omega arith)
                    (omega arith),
                tt,
              ),
            ),
          ),
        );
  jobs_sane = λ id job e. absurd (none-ne-some e);
  jobs_below = λ id job e. absurd (none-ne-some e);
}

-- One request or tick. A request asks for no negative amount, and job numbers last.
pub data Step : ClusterStore → ClusterStore → Type 0 where
  submit :
      (s : ClusterStore) (now : ℤ) (name partition : String) (cpus gpus memory duration : ℤ)
      → IsSaneRequest cpus gpus memory
      → IsInt64 (s.next_job_id +ℤ pos 1)
      → Step s (submit_job s now name partition cpus gpus memory duration).0
  cancel : (s : ClusterStore) (now id : ℤ) → Step s (cancel_job now id s).0
  tick :
      (s : ClusterStore) (now : ℤ) (first second : List ℤ)
      → Step s (reconcile_jobs now first second s)

pub data Reach (s : ClusterStore) : ClusterStore → Type 0 where
  here : Reach s s
  next : {t u : ClusterStore} → Reach s t → Step t u → Reach s u

Step-Inv : {s t : ClusterStore} → Step s t → Inv s → Inv t
Step-Inv (submit s now name partition cpus gpus memory duration sane word) inv =
    submit_job-Inv s inv now name partition cpus gpus memory duration sane word
Step-Inv (cancel s now id) inv = cancel_job-Inv now id s inv
Step-Inv (tick s now first second) inv = reconcile_jobs-Inv now first second s inv

pub Reach-Inv : {s : ClusterStore} → Reach new_cluster_store s → Inv s
Reach-Inv here = new_cluster_store-Inv
Reach-Inv (next r st) = Step-Inv st (Reach-Inv r)

-- Every CPU and every GPU of the node is taken.
abbrev pub IsFull : SlurmNode → Gres → Type 0
IsFull nd gpu = (nd.cpus_used ≡ nd.cpus) × (gpu.used ≡ gpu.count)

-- No CPU and no GPU of the node is taken.
abbrev pub IsFree : SlurmNode → Gres → Type 0
IsFree nd gpu = (nd.cpus_used ≡ pos 0) × (gpu.used ≡ pos 0)

-- What a client may rely on of node k: its counters are the sums over the jobs that run there, none
-- is above what the node has, and its state is IDLE exactly where it is free, ALLOCATED exactly
-- where it is full and not free, MIXED exactly where it is neither, and never DOWN.
pub record Accounted (s : ClusterStore) (k : String) (nd : SlurmNode) : Type 0 where
  pub gpu : Gres
  pub one_gpu : nd.gres_list ≡ gpu ∷ []
  pub cpus_used : nd.cpus_used ≡ pos (usage cpus_of k s.jobs)
  pub memory_used : nd.memory_used ≡ pos (usage memory_of k s.jobs)
  pub gpus_used : gpu.used ≡ pos (usage gpus_of k s.jobs)
  pub cpus_fit : nd.cpus_used ≤ℤ nd.cpus
  pub memory_fits : nd.memory_used ≤ℤ nd.memory
  pub gpus_fit : gpu.used ≤ℤ gpu.count
  pub idle_iff : (nd.state ≡ NodeState.idle) ↔ IsFree nd gpu
  pub allocated_iff : (nd.state ≡ NodeState.allocated) ↔ (IsFull nd gpu × ¬ IsFree nd gpu)
  pub mixed_iff : (nd.state ≡ NodeState.mixed) ↔ ((¬ IsFree nd gpu) × ¬ IsFull nd gpu)
  pub in_service : nd.state ≢ NodeState.down

Agrees-Accounted :
    (s : ClusterStore) (k : String) (nd : SlurmNode) → Agrees k s.jobs nd → Accounted s k nd
unfolding occupancy
Agrees-Accounted s k nd h = record {
  gpu = record {
    name = "gpu";
    kind = h.kind;
    count = pos h.gpu_cap;
    used = pos (usage gpus_of k s.jobs);
  };
  one_gpu = h.gres;
  cpus_used = h.cpus_used;
  memory_used = h.memory_used;
  gpus_used = refl;
  cpus_fit = ground arith;
  memory_fits = ground arith;
  gpus_fit = ground arith;
  idle_iff =
      ground
        (arith, zero_plus h.gpu_cap h.gpu_word, zero_plus (usage gpus_of k s.jobs) (omega arith));
  allocated_iff =
      ground
        (arith, zero_plus h.gpu_cap h.gpu_word, zero_plus (usage gpus_of k s.jobs) (omega arith));
  mixed_iff =
      ground
        (arith, zero_plus h.gpu_cap h.gpu_word, zero_plus (usage gpus_of k s.jobs) (omega arith));
  in_service =
      ground
        (arith, zero_plus h.gpu_cap h.gpu_word, zero_plus (usage gpus_of k s.jobs) (omega arith));
}
  where
    zero_plus : (n : ℕ) → n < 2 ^ 63 → add64 (pos 0) (pos n) ≡ pos n
    zero_plus n h = ground (arith, add64-pos 0 n)

-- After any submissions that ask for no negative amount, cancellations and ticks, as long as job
-- numbers last, every node of the cluster is accounted for: its counters are the sums over the jobs
-- that run there and fit what it has, and its state says which of free, full and neither it is.
pub reachable-Accounted :
    (s : ClusterStore) (k : String) (nd : SlurmNode)
    → Reach new_cluster_store s
    → lookup k s.nodes ≡ some nd
    → Accounted s k nd
reachable-Accounted s k nd r e = Agrees-Accounted s k nd ((Reach-Inv r).nodes_agree k nd e)
