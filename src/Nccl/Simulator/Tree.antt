-- ===== src/Nccl/Simulator/Tree.antt =====
-- The tree topology of the simulator as it is built (nccl-visualizer/simulator.go): the parents and
-- children, and the depths, which are set by a walk from the root.
pub mod Children
pub mod Levels
pub mod Shown
pub mod Run
pub mod Delivery
pub mod Upward
pub mod Downward
pub mod AllReduce
pub mod Results
pub mod Shape
pub mod Capacity
pub mod Goroutines
pub mod Interleaving
pub mod Schedules
pub mod Reorder
pub mod Parcels
pub mod AnyOrder
use velo_infra_playground.Prelude.{
  ℕ, suc, ◌-◌, ◌/◌, List, [], ◌∷◌, ◌++◌, Bool, ◌&&◌, Option, none, some, ltb, nat_eq, if◌then◌else◌,
}
use velo_infra_playground.Nccl.Network.{update}
use velo_infra_playground.Nccl.Simulator.Types.{Topology, Gpu}

-- `none` is the root's -1.
unfoldable pub parent_of : ℕ → Option ℕ
parent_of i = if ltb 0 i then some ((i - 1) / 2) else none

-- The children of p after the loop has met the first i GPUs.
unfoldable pub children_upto : ℕ → ℕ → List ℕ
children_upto ℕ.zero p = []
children_upto (ℕ.suc i) p =
    let before = children_upto i p in
    if ltb 0 i && nat_eq ((i - 1) / 2) p then before ++ (i ∷ []) else before

-- What the walk writes.
pub record Depths : Type 0 where
  pub depth : ℕ → ℕ
  pub nodes_by_depth : ℕ → List ℕ
  pub max_depth : ℕ

unfoldable pub visit : ℕ → ℕ → Depths → Depths
visit id d t = record {
  depth = update t.depth id d;
  nodes_by_depth = update t.nodes_by_depth d (t.nodes_by_depth d ++ (id ∷ []));
  max_depth = if ltb t.max_depth d then d else t.max_depth;
}

-- A loop over children.
unfoldable pub each : (ℕ → Depths → Depths) → List ℕ → Depths → Depths
each f [] t = t
each f (c ∷ cs) t = each f cs (f c t)

-- `computeDepth`, with fuel for the depth of its recursion.
unfoldable pub compute_depth : (ℕ → List ℕ) → ℕ → ℕ → ℕ → Depths → Depths
unfolding each visit
compute_depth children ℕ.zero id d t = t
compute_depth children (ℕ.suc fuel) id d t =
    each (λ c s. compute_depth children fuel c (suc d) s) (children id) (visit id d t)

-- The walk of `NewSimulator`, for at least one GPU: for none it panics at the root. Every child has a
-- greater number, so fuel for n levels is enough.
unfoldable pub depths : ℕ → Depths
unfolding compute_depth
depths n =
    compute_depth (children_upto n) n 0 0
      (record { depth = λ i. 0; nodes_by_depth = λ d. []; max_depth = 0 })

unfoldable pub tree_gpu : ℕ → ℕ → Gpu
unfolding depths
tree_gpu n i = record {
  id = i;
  num_gpus = n;
  topology = Topology.tree;
  parent = parent_of i;
  children = children_upto n i;
  depth = (depths n).depth i;
}
