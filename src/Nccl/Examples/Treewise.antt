-- ===== src/Nccl/Examples/Treewise.antt =====
-- The theorem on the steps of a tree, for four GPUs with whole numbers.
use velo_infra_playground.Prelude.{
  ℕ, ◌≤◌, ◌<◌, length, ◌*◌, ◌+◌, ◌≡◌, ◌⊎◌, List, [], ◌∷◌, some, false, leb, arith,
}
use velo_infra_playground.Nccl.Buffers.{tabulate}
use velo_infra_playground.Nccl.Node.{expected_sum}
use velo_infra_playground.Nccl.Network.Below.{Below}
use velo_infra_playground.Nccl.Examples.{plus, plus-laws}
use velo_infra_playground.Nccl.Sums.{Shuffle, below_list}
use velo_infra_playground.Nccl.Simulator.Tree.Run.{
  TreeSimulator, new_tree_simulator, simulate_tree, incoming, tree_sends,
}
use velo_infra_playground.Nccl.Simulator.Tree.{depths, children_upto}
use velo_infra_playground.Nccl.Simulator.Tree.Capacity.{incoming-bounded}
use velo_infra_playground.Nccl.Simulator.Tree.Upward.{top_of}
use velo_infra_playground.Nccl.Simulator.Tree.Results.{simulate_tree-expected_sum}

abbrev filled : ℕ → ℕ → ℕ
filled i j = (i + 1) * 10 + (j + 1)

-- Into every channel GPU 2 puts its messages before GPU 3.
abbrev orders : ℕ → List ℕ
orders i = 2 ∷ 3 ∷ 1 ∷ 0 ∷ []

orders-Shuffle : (i : ℕ) → Shuffle (orders i) (below_list 4)
orders-Shuffle i = Shuffle.swap 2 3 (Shuffle.cons 1 (Shuffle.cons 0 Shuffle.nil))

abbrev four_steps : List (ℕ → List ℕ)
four_steps = orders ∷ orders ∷ orders ∷ orders ∷ []

simulate_tree-expected_sum_example :
    (t : TreeSimulator ℕ) × (simulate_tree plus 4 four_steps (new_tree_simulator 4 filled) ≡ some t)
    × Below (λ i. t.channels i ≡ []) 4
    × (t.state.finished ≡ leb (2 * top_of 4) 4)
    × ((t.state.finished ≡ false)
        ⊎ Below (λ i. t.buffers i ≡ tabulate 4 (expected_sum plus 0 filled 4)) 4)
simulate_tree-expected_sum_example =
    simulate_tree-expected_sum plus 0 plus-laws 4 (omega arith) filled four_steps
      (orders-Shuffle, (orders-Shuffle, (orders-Shuffle, (orders-Shuffle, tt))))

second_of_four : 1 < 2 * top_of 4
unfolding depths children_upto
second_of_four = omega arith

incoming-bounded_example :
    (length (incoming 4 1 (λ j. tabulate 4 (filled j)) 0 (orders 0)) ≤ 2)
    × ((incoming 4 1 (λ j. tabulate 4 (filled j)) 0 (orders 0) ≡ [])
        ⊎ (tree_sends 4 1 0 (tabulate 4 (filled 0)) ≡ []))
incoming-bounded_example =
    incoming-bounded 4 1 (λ j. tabulate 4 (filled j)) 0 (omega arith) (orders 0) (orders-Shuffle 0)
      second_of_four
