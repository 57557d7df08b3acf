-- ===== src/Nccl/Simulator/Tree/Upward.antt =====
-- A step on the way up: a GPU above the active depth adds its children's buffers to its own.
use velo_infra_playground.Prelude.{
  ℕ, suc, ◌+◌, ◌-◌, ◌<◌, ◌≡◌, ◌≢◌, refl, sym, ap, ◌∙◌, inl, inr, List, [], ◌∷◌, ◌++◌, map, length,
  Bool, true, false, ◌&&◌, Option, some, ltb, nat_eq, nat_Eq, if◌then◌else◌, arith, Bool-cases,
  Eq-cases,
}
use velo_infra_playground.Nccl.Buffers.{tabulate_from, tabulate}
use velo_infra_playground.Nccl.Node.Total.{AdditionLaws}
use velo_infra_playground.Nccl.Sums.{Shuffle, below_list, sum, sum_list, zero_right}
use velo_infra_playground.Nccl.Simulator.Types.{Phase, BlockMsg}
use velo_infra_playground.Nccl.Simulator.Tree.{depths, tree_gpu, children_upto, parent_of}
use velo_infra_playground.Nccl.Simulator.Tree.Levels.{depth_up}
use mathlib.Core.Path.{fun_ext}
use velo_infra_playground.Nccl.Simulator.Tree.Run.{
  message, to_parent, tree_sends, expected_count, reduce_values, reduce_all, tree_receives,
  addressed, incoming,
}
use velo_infra_playground.Nccl.Simulator.Tree.Delivery.{
  plus, select, hangs, length-select, select_none, sum_list-select_below,
}

abbrev pub depth_of : ℕ → ℕ → ℕ
depth_of n i = (depths n).depth i

abbrev pub top_of : ℕ → ℕ
top_of n = (depths n).max_depth

-- Whether j, at depth d, sends to i.
abbrev pub sends_up : ℕ → ℕ → ℕ → ℕ → Bool
sends_up n d i j = hangs j i && nat_eq (depth_of n j) d

-- The children that are counted are the GPUs that send.
expected_count-append :
    (n d c : ℕ) (xs : List ℕ)
    → expected_count n d (xs ++ (c ∷ []))
      ≡ expected_count n d xs + (if nat_eq (depth_of n c) d then 1 else 0)
unfolding expected_count tree_gpu
expected_count-append n d c [] = ground arith
expected_count-append n d c (x ∷ xs) = ground (arith, expected_count-append n d c xs)

expected_count-children :
    (n d i m : ℕ)
    → expected_count n d (children_upto m i) ≡ sum plus 0 (λ j. if sends_up n d i j then 1 else 0) m
unfolding expected_count children_upto
expected_count-children n d i ℕ.zero = refl
expected_count-children n d i (ℕ.suc m) = elim (Bool-cases (hangs m i)) [
  | inl e ↦ rw e (
      expected_count-append n d m (children_upto m i)
      ∙ ap (λ k. k + (if nat_eq (depth_of n m) d then 1 else 0)) (expected_count-children n d i m))
  | inr e ↦ rw e (omega (arith, expected_count-children n d i m))
]

module _ {V : Type 0} (n k : ℕ) (up : k < top_of n) where
  pub addressed-tree_sends :
      (i j : ℕ) (buffer : List V)
      → addressed i (tree_sends n k j buffer) ≡ (
          if sends_up n (top_of n - k) i j
          then message j k Phase.upward_reduce buffer i ∷ []
          else [])
  unfolding addressed tree_sends to_parent tree_gpu parent_of
  addressed-tree_sends i j buffer = ground arith

  pub incoming-select :
      (buffers : ℕ → List V) (i : ℕ) (order : List ℕ)
      → incoming n k buffers i order
        ≡ map
            (λ j. message j k Phase.upward_reduce (buffers j) i)
            (select (sends_up n (top_of n - k) i) order)
  unfolding incoming
  incoming-select buffers i [] = refl
  incoming-select buffers i (j ∷ order) =
      rw (addressed-tree_sends i j (buffers j), incoming-select buffers i order)
        (elim (Bool-cases (sends_up n (top_of n - k) i j)) [
          | inl e ↦ rw e refl
          | inr e ↦ rw e refl
        ])

-- The values after the step.
abbrev pub risen : {V : Type 0} → (V → V → V) → V → ℕ → ℕ → (ℕ → ℕ → V) → ℕ → ℕ → V
risen add zero n k values i b =
    if nat_eq (depth_of n i) (top_of n - k)
    then values i b
    else if nat_eq (depth_of n i) (top_of n - k - 1)
    then add (values i b)
        (sum add zero (λ j. if sends_up n (top_of n - k) i j then values j b else zero) n)
    else values i b

-- Only a GPU above the depth d has children there.
pub no_child : (n d i j : ℕ) → j < n → depth_of n i ≢ d - 1 → sends_up n d i j ≡ false
no_child n d i ℕ.zero lt other = refl
no_child n d i (ℕ.suc j) lt other = ground (arith, depth_up n j lt)

module _ {V : Type 0} (add : V → V → V) where
  reduce_values-tabulate_from :
      (s m : ℕ) (f g : ℕ → V)
      → reduce_values add (tabulate_from s m f) (tabulate_from s m g)
        ≡ some (tabulate_from s m (λ b. add (f b) (g b)))
  unfolding reduce_values tabulate_from
  reduce_values-tabulate_from s ℕ.zero f g = refl
  reduce_values-tabulate_from s (ℕ.suc m) f g =
      rw (reduce_values-tabulate_from (suc s) m f g, reduce_values) refl

  -- The buffer after receiving those of some GPUs.
  abbrev gathered : (ℕ → ℕ → V) → (ℕ → V) → List ℕ → ℕ → V
  gathered values f [] = f
  gathered values f (j ∷ js) = gathered values (λ b. add (f b) (values j b)) js

  reduce_all-map :
      (m : ℕ) (values : ℕ → ℕ → V) (f : ℕ → V) (msg : ℕ → BlockMsg V) (js : List ℕ)
      → ((j : ℕ) → (msg j).values ≡ tabulate m (values j))
      → reduce_all add (length js) (map msg js) (tabulate m f)
        ≡ some (tabulate m (gathered values f js), [])
  unfolding reduce_all
  reduce_all-map m values f msg [] h = refl
  reduce_all-map m values f msg (j ∷ js) h =
      rw (h j, reduce_values-tabulate_from 0 m f (values j), reduce_all)
        (reduce_all-map m values (λ b. add (f b) (values j b)) msg js h)

  module _ (zero : V) (laws : AdditionLaws add zero) where
    gathered-sum_list :
        (values : ℕ → ℕ → V) (f : ℕ → V) (js : List ℕ) (b : ℕ)
        → gathered values f js b ≡ add (f b) (sum_list add zero (λ j. values j b) js)
    gathered-sum_list values f [] b = sym (zero_right add zero laws (f b))
    gathered-sum_list values f (j ∷ js) b =
        gathered-sum_list values (λ b. add (f b) (values j b)) js b
        ∙ laws.assoc (f b) (values j b) (sum_list add zero (λ j. values j b) js)

  module _ (zero : V) (laws : AdditionLaws add zero) (n k : ℕ) (up : k < top_of n)
      (values : ℕ → ℕ → V) where
    module _ (i : ℕ) (order : List ℕ) (every : Shuffle order (below_list n)) where
      collected :
          reduce_all add
            (expected_count n (top_of n - k) (children_upto n i))
            (incoming n k (λ j. tabulate n (values j)) i order)
            (tabulate n (values i))
          ≡ some (
            tabulate n (λ b.
                add (values i b) (
                  sum add zero
                    (λ j. if sends_up n (top_of n - k) i j then values j b else zero)
                    n)),
            [],
          )
      collected =
          let sent = select (sends_up n (top_of n - k) i) order in
          rw
            (
              incoming-select n k up (λ j. tabulate n (values j)) i order,
              expected_count-children n (top_of n - k) i n
                  ∙ sym (length-select (sends_up n (top_of n - k) i) n every),
            )
            (reduce_all-map n values (values i) _ sent (λ j. refl)
              ∙ ap (λ f. some (tabulate n f, []))
                  (fun_ext (λ b.
                    gathered-sum_list zero laws values (values i) sent b
                    ∙ ap (add (values i b)) (
                        sum_list-select_below add zero laws (sends_up n (top_of n - k) i)
                          (λ j. values j b) n every))))

      silent :
          depth_of n i ≢ top_of n - k - 1 → incoming n k (λ j. tabulate n (values j)) i order ≡ []
      silent other =
          incoming-select n k up (λ j. tabulate n (values j)) i order
          ∙ ap (map _) (
              select_none (sends_up n (top_of n - k) i) n every
                (λ j lt. no_child n (top_of n - k) i j lt other))

      abbrev received : Option (List V × List (BlockMsg V))
      received =
          tree_receives add n k i (incoming n k (λ j. tabulate n (values j)) i order)
            (tabulate n (values i))

      received-parent :
          depth_of n i ≡ top_of n - k - 1
          → received
            ≡ reduce_all add
                (expected_count n (top_of n - k) (children_upto n i))
                (incoming n k (λ j. tabulate n (values j)) i order)
                (tabulate n (values i))
      unfolding tree_receives tree_gpu
      received-parent parent =
          let before : ltb k (top_of n) ≡ true = ground arith in
          let apart : nat_eq (depth_of n i) (top_of n - k) ≡ false = ground arith in
          let above : nat_eq (depth_of n i) (top_of n - k - 1) ≡ true = ground arith in
          rw (before, tree_receives) (rw (apart, above) refl)

      received-other : depth_of n i ≢ top_of n - k - 1 → received ≡ some (tabulate n (values i), [])
      unfolding tree_receives tree_gpu
      received-other other = rw (silent other, tree_receives) (ground arith)

      pub receives_up : received ≡ some (tabulate n (risen add zero n k values i), [])
      receives_up = elim (Eq-cases (depth_of n i) (top_of n - k - 1)) [
        | inl parent ↦
            received-parent parent
            ∙ collected
            ∙ ap (λ f. some (tabulate n f, [])) (fun_ext (λ b. ground arith))
        | inr other ↦
            received-other other ∙ ap (λ f. some (tabulate n f, [])) (fun_ext (λ b. ground arith))
      ]
