-- ===== src/Nccl/Examples/Flown.antt =====
-- The theorem on the goroutines of a step of the tree, for four GPUs with whole numbers.
use velo_infra_playground.Prelude.{
  ℕ, ◌+◌, ◌*◌, ◌<◌, ◌≡◌, refl, List, [], ◌∷◌, Bool, Option, none, some, arith,
}
use velo_infra_playground.Nccl.Network.Below.{Below, Below-at}
use velo_infra_playground.Nccl.Buffers.{tabulate_from}
use velo_infra_playground.Nccl.Examples.{plus}
use velo_infra_playground.Nccl.Sums.{Shuffle, below_list}
use velo_infra_playground.Nccl.Simulator.Tree.{
  depths, compute_depth, each, visit, children_upto, parent_of, tree_gpu,
}
use velo_infra_playground.Nccl.Simulator.Tree.Run.{
  TreeSimulator, new_tree_simulator, tree_step, tree_sends, to_parent, expected_count,
  reduce_values, update_tree_state,
}
use velo_infra_playground.Nccl.Simulator.Tree.Goroutines.{
  Flight, take_off, fly, act, put, get, absorb, awaited,
}
use velo_infra_playground.Nccl.Simulator.Tree.Upward.{top_of}
use velo_infra_playground.Nccl.Simulator.Tree.AnyOrder.{fly-tree_step}

abbrev filled : ℕ → ℕ → ℕ
filled i j = (i + 1) * 10 + (j + 1)

abbrev start : TreeSimulator ℕ
start = new_tree_simulator 4 filled

-- GPU 1 waits once for the message that GPU 3 then sends.
abbrev schedule : List ℕ
schedule = 1 ∷ 0 ∷ 3 ∷ 2 ∷ 1 ∷ []

abbrev or_off : Option (Flight ℕ) → Flight ℕ
or_off none = take_off 4 0 start.buffers
or_off (some f) = f

abbrev landed : Flight ℕ
landed = or_off (fly plus 4 0 schedule (take_off 4 0 start.buffers))

flown : fly plus 4 0 schedule (take_off 4 0 start.buffers) ≡ some landed
unfolding fly act put get absorb awaited tree_sends to_parent expected_count reduce_values depths
    children_upto parent_of tree_gpu compute_depth each visit tabulate_from new_tree_simulator
    update_tree_state
flown = refl

all_sent : Below (λ i. landed.outgoing i ≡ []) 4
unfolding fly act put get absorb awaited tree_sends to_parent expected_count reduce_values depths
    children_upto parent_of tree_gpu compute_depth each visit tabulate_from new_tree_simulator
    update_tree_state
all_sent = (refl, (refl, (refl, (refl, tt))))

all_received : Below (λ i. landed.waits_for i ≡ 0) 4
unfolding fly act put get absorb awaited tree_sends to_parent expected_count reduce_values depths
    children_upto parent_of tree_gpu compute_depth each visit tabulate_from new_tree_simulator
    update_tree_state
all_received = (refl, (refl, (refl, (refl, tt))))

running : start.state.finished ≡ Bool.false
unfolding new_tree_simulator update_tree_state depths children_upto compute_depth each visit
running = refl

first_of_four : start.state.step < 2 * top_of 4
unfolding depths children_upto new_tree_simulator update_tree_state
first_of_four = omega arith

no_message : (i : ℕ) → i < 4 → start.channels i ≡ []
unfolding new_tree_simulator
no_message i i_lt = refl

fly-tree_step_example :
    (orders : ℕ → List ℕ) × ((i : ℕ) → Shuffle (orders i) (below_list 4))
    × (t : TreeSimulator ℕ) × (more : Bool) × (tree_step plus 4 orders start ≡ some (t, more))
    × Below (λ i. (t.buffers i ≡ landed.held i) × (t.channels i ≡ landed.channels i)) 4
unfolding new_tree_simulator
fly-tree_step_example =
    fly-tree_step plus 4 start running first_of_four no_message schedule
      (omega arith, (omega arith, (omega arith, (omega arith, (omega arith, tt))))) landed flown
      (λ i i_lt. Below-at (λ k. landed.outgoing k ≡ []) 4 i i_lt all_sent)
      (λ i i_lt. Below-at (λ k. landed.waits_for k ≡ 0) 4 i i_lt all_received)
