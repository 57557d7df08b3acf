-- ===== src/Nccl/Simulator/Tree/Capacity.antt =====
-- How many messages go into a channel of the tree in a step.
use velo_infra_playground.Prelude.{
  ℕ, suc, ◌+◌, ◌-◌, ◌*◌, ◌/◌, ◌≤◌, ◌<◌, ◌≡◌, ◌≢◌, ◌⊎◌, refl, ap, ◌∙◌, inl, inr, List, [], ◌∷◌, map,
  length, length-map, leb, ltb, nat_Eq, if◌then◌else◌, arith, Bool-cases, Eq-cases,
}
use velo_infra_playground.Nccl.Simulator.Types.{Phase}
use velo_infra_playground.Nccl.Sums.{Shuffle, below_list, sum}
use velo_infra_playground.Nccl.Simulator.Tree.{tree_gpu}
use velo_infra_playground.Nccl.Simulator.Tree.Levels.{depth_root}
use velo_infra_playground.Nccl.Simulator.Tree.Run.{message, tree_sends, incoming}
use velo_infra_playground.Nccl.Simulator.Tree.Delivery.{
  plus, select, length-select, select_none, select_one, select-ext,
}
use velo_infra_playground.Nccl.Simulator.Tree.Upward
use velo_infra_playground.Nccl.Simulator.Tree.Upward.{depth_of, top_of, sends_up, no_child}
use velo_infra_playground.Nccl.Simulator.Tree.Downward
use velo_infra_playground.Nccl.Simulator.Tree.Downward.{sends_down, no_parent, one_parent}

-- No more than two GPUs hang on one.
number_up :
    (n d i m : ℕ)
    → sum plus 0 (λ j. if sends_up n d i j then 1 else 0) m
      ≤ (if leb m (2 * i + 1) then 0 else if leb m (2 * i + 2) then 1 else 2)
number_up n d i ℕ.zero = omega arith
number_up n d i (ℕ.suc m) = ground (arith, number_up n d i m)

at_most_two : (n d i m : ℕ) → sum plus 0 (λ j. if sends_up n d i j then 1 else 0) m ≤ 2
at_most_two n d i m = ground (arith, number_up n d i m)

module _ {V : Type 0} (n k : ℕ) (buffers : ℕ → List V) (i : ℕ) (i_lt : i < n) (order : List ℕ)
    (every : Shuffle order (below_list n)) where
  -- What is to be shown of a step.
  abbrev Bounded : Type 0
  Bounded =
      (length (incoming n k buffers i order) ≤ 2)
      × ((incoming n k buffers i order ≡ []) ⊎ (tree_sends n k i (buffers i) ≡ []))

  bounded_up : k < top_of n → Bounded
  unfolding tree_sends tree_gpu
  bounded_up up =
      let arrived = Upward.incoming-select n k up buffers i order in
      (
        rw (arrived) (
            omega (
              arith,
              length-map (λ j. message j k Phase.upward_reduce (buffers j) i)
                  (select (sends_up n (top_of n - k) i) order),
              length-select (sends_up n (top_of n - k) i) n every,
              at_most_two n (top_of n - k) i n,
            )),
        elim (Eq-cases (depth_of n i) (top_of n - k - 1)) [
          | inl parent ↦ inr (ground arith)
          | inr other ↦ inl (
              arrived
              ∙ ap (map _) (
                  select_none (sends_up n (top_of n - k) i) n every
                    (λ j lt. no_child n (top_of n - k) i j lt other)))
        ],
      )

  quiet_down :
      (turned : top_of n ≤ k) (down : k < 2 * top_of n)
      → depth_of n i ≢ suc (k - top_of n)
      → incoming n k buffers i order ≡ []
  quiet_down turned down other =
      Downward.incoming-select n k turned down buffers i order
      ∙ ap (map _) (
          select_none (sends_down n (k - top_of n) i) n every
            (λ j lt. no_parent n (k - top_of n) i j other))

-- From above a GPU gets the message of its parent and no other.
one_down :
    {V : Type 0} (n k : ℕ) (buffers : ℕ → List V) (i : ℕ) (i_lt : i < n) (order : List ℕ)
    → Shuffle order (below_list n)
    → top_of n ≤ k
    → k < 2 * top_of n
    → depth_of n i ≡ suc (k - top_of n)
    → length (incoming n k buffers i order) ≡ 1
one_down n k buffers ℕ.zero i_lt order every turned down level =
    absurd (omega (arith, depth_root n i_lt))
one_down n k buffers (ℕ.suc i) i_lt order every turned down level =
    let sent : select (sends_down n (k - top_of n) (suc i)) order ≡ i / 2 ∷ [] =
      select-ext _ _ order (λ j. one_parent n (k - top_of n) i j i_lt level)
      ∙ select_one (i / 2) n (omega arith) every in
    rw (Downward.incoming-select n k turned down buffers (suc i) order, sent) refl

module _ {V : Type 0} (n k : ℕ) (buffers : ℕ → List V) (i : ℕ) (i_lt : i < n) (order : List ℕ)
    (every : Shuffle order (below_list n)) where
  bounded_down : top_of n ≤ k → k < 2 * top_of n → Bounded n k buffers i i_lt order every
  unfolding tree_sends tree_gpu
  bounded_down turned down = elim (Eq-cases (depth_of n i) (suc (k - top_of n))) [
    | inl level ↦ (
      omega (arith, one_down n k buffers i i_lt order every turned down level),
      inr (ground arith),
    )
    | inr other ↦
        let quiet = quiet_down n k buffers i i_lt order every turned down other in
        (rw (quiet) (omega arith), inl quiet)
  ]

  -- In a step of a tree that has not ended, in whatever order the messages come, at most two go to
  -- a GPU, whose channel holds two for every GPU, and a GPU that messages go to sends none itself.
  pub incoming-bounded :
      k < 2 * top_of n
      → (length (incoming n k buffers i order) ≤ 2)
        × ((incoming n k buffers i order ≡ []) ⊎ (tree_sends n k i (buffers i) ≡ []))
  incoming-bounded down = elim (Bool-cases (ltb k (top_of n))) [
    | inl up ↦ bounded_up n k buffers i i_lt order every (ground arith)
    | inr turned ↦ bounded_down (ground arith) down
  ]
