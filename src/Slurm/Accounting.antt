-- ===== src/Slurm/Accounting.antt =====
-- One node's counters under allocation and release (`try_node`, `release_node`).
use velo_infra_playground.Prelude.{
  ℕ, ◌+◌, ◌^◌, ◌≤◌, ◌<◌, ◌≡◌, refl, String, [], ◌∷◌, some, arith, string_Eq,
}
use velo_infra_playground.Prelude.Int.{pos, pos_part, ltb_ℤ}
use velo_infra_playground.Prelude.Words.{add64-pos, sub64-pos}
use velo_infra_playground.Slurm.Types.{SlurmNode, SlurmJob}
use velo_infra_playground.Slurm.Store.{
  occupancy, recalculate_node_state, clamp0, release_gres, release_node,
}
use velo_infra_playground.Slurm.Scheduler.{find_gpu, add_used, allocate, try_node}

-- What a request that the simulator can account for asks: no negative amount, and a memory amount
-- that is marked as set exactly where it is not zero.
pub record IsSane (job : SlurmJob) : Type 0 where
  pub cpus_nonneg : job.cpus ≡ pos (pos_part job.cpus)
  pub gpus_nonneg : job.gpus ≡ pos (pos_part job.gpus)
  pub memory_nonneg : job.memory.number ≡ pos (pos_part job.memory.number)
  pub memory_set : job.memory.is_set ≡ ltb_ℤ (pos 0) job.memory.number

-- The node called k has one GPU resource and, within its capacity, c CPUs, g GPUs and m megabytes
-- in use; its state is the one that these counters call for.
pub record Holds (k : String) (c g m : ℕ) (nd : SlurmNode) : Type 0 where
  pub named : nd.name ≡ k
  pub cpu_cap : ℕ
  pub gpu_cap : ℕ
  pub mem_cap : ℕ
  pub kind : String
  pub cpus : nd.cpus ≡ pos cpu_cap
  pub memory : nd.memory ≡ pos mem_cap
  pub cpus_used : nd.cpus_used ≡ pos c
  pub memory_used : nd.memory_used ≡ pos m
  pub gres :
      nd.gres_list ≡ record { name = "gpu"; kind = kind; count = pos gpu_cap; used = pos g } ∷ []
  pub cpu_fits : c ≤ cpu_cap
  pub gpu_fits : g ≤ gpu_cap
  pub mem_fits : m ≤ mem_cap
  pub cpu_word : cpu_cap < 2 ^ 63
  pub gpu_word : gpu_cap < 2 ^ 63
  pub mem_word : mem_cap < 2 ^ 63
  pub state : nd.state ≡ occupancy nd

-- What the guards of the placement loop have established where they let the node pass.
record Room (c g m : ℕ) (cc gc mc : ℕ) (job : SlurmJob) : Type 0 where
  cpu_room : c + pos_part job.cpus ≤ cc
  gpu_room : g + pos_part job.gpus ≤ gc
  mem_room : m + pos_part job.memory.number ≤ mc

try_node-Room :
    (k : String) (c g m : ℕ) (nd nd' : SlurmNode) (job : SlurmJob) (h : Holds k c g m nd)
    → IsSane job
    → try_node nd job ≡ some nd'
    → Room c g m h.cpu_cap h.gpu_cap h.mem_cap job × (nd' ≡ allocate nd job 0)
unfolding try_node find_gpu
try_node-Room k c g m nd nd' job h s e =
    ground (arith, sub64-pos h.cpu_cap c, sub64-pos h.mem_cap m, sub64-pos h.gpu_cap g)

allocate-Holds :
    (k : String) (c g m : ℕ) (nd : SlurmNode) (job : SlurmJob) (h : Holds k c g m nd)
    → IsSane job
    → Room c g m h.cpu_cap h.gpu_cap h.mem_cap job
    → Holds k
        (c + pos_part job.cpus)
        (g + pos_part job.gpus)
        (m + pos_part job.memory.number)
        (allocate nd job 0)
unfolding allocate add_used recalculate_node_state occupancy
allocate-Holds k c g m nd job h s r = record {
  named = h.named;
  cpu_cap = h.cpu_cap;
  gpu_cap = h.gpu_cap;
  mem_cap = h.mem_cap;
  kind = h.kind;
  cpus = h.cpus;
  memory = h.memory;
  cpus_used = ground (arith, add64-pos c (pos_part job.cpus));
  memory_used = ground (arith, add64-pos m (pos_part job.memory.number));
  gres = ground (arith, add64-pos g (pos_part job.gpus));
  cpu_fits = r.cpu_room;
  gpu_fits = r.gpu_room;
  mem_fits = r.mem_room;
  cpu_word = h.cpu_word;
  gpu_word = h.gpu_word;
  mem_word = h.mem_word;
  state = refl;
}

-- A node that passes the guards of the placement loop holds the job's amounts on top of its own.
pub try_node-Holds :
    (k : String) (c g m : ℕ) (nd nd' : SlurmNode) (job : SlurmJob)
    → Holds k c g m nd
    → IsSane job
    → try_node nd job ≡ some nd'
    → Holds k (c + pos_part job.cpus) (g + pos_part job.gpus) (m + pos_part job.memory.number) nd'
try_node-Holds k c g m nd nd' job h s e =
    let (room, same) = try_node-Room k c g m nd nd' job h s e in
    rw same (allocate-Holds k c g m nd job h s room)

-- A release takes the job's amounts off again, if they were part of what is in use.
pub release_node-Holds :
    (k : String) (c g m : ℕ) (nd : SlurmNode) (job : SlurmJob)
    → Holds k (c + pos_part job.cpus) (g + pos_part job.gpus) (m + pos_part job.memory.number) nd
    → IsSane job
    → Holds k c g m (release_node job nd)
unfolding release_node recalculate_node_state occupancy clamp0 release_gres
release_node-Holds k c g m nd job h s = record {
  named = h.named;
  cpu_cap = h.cpu_cap;
  gpu_cap = h.gpu_cap;
  mem_cap = h.mem_cap;
  kind = h.kind;
  cpus = h.cpus;
  memory = h.memory;
  cpus_used = ground (arith, sub64-pos (c + pos_part job.cpus) (pos_part job.cpus));
  memory_used =
      ground (arith, sub64-pos (m + pos_part job.memory.number) (pos_part job.memory.number));
  gres = ground (arith, sub64-pos (g + pos_part job.gpus) (pos_part job.gpus));
  cpu_fits = omega arith;
  gpu_fits = omega arith;
  mem_fits = omega arith;
  cpu_word = h.cpu_word;
  gpu_word = h.gpu_word;
  mem_word = h.mem_word;
  state = refl;
}
