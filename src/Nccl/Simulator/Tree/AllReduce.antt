-- ===== src/Nccl/Simulator/Tree/AllReduce.antt =====
-- The values in the tree step by step: on the way up the sum over the GPUs that are not yet taken in
-- stays what it is, on the way down the root's value spreads.
use velo_infra_playground.Prelude.{
  ℕ, suc, ◌+◌, ◌-◌, ◌*◌, ◌/◌, ◌≤◌, ◌<◌, ◌≡◌, ◌≢◌, refl, sym, ap, ◌∙◌, inl, inr, ltb, leb, nat_eq,
  nat_Eq, if◌then◌else◌, arith, Eq-cases,
}
use velo_infra_playground.Nccl.Node.{expected_sum}
use velo_infra_playground.Nccl.Node.Total.{AdditionLaws}
use velo_infra_playground.Nccl.Sums.{sum, sum-ext, sum-zero, sum-add, sum-swap, sum-one, zero_right}
use velo_infra_playground.Nccl.Simulator.Tree.Levels.{depths-Level, depth_up, depth_root}
use velo_infra_playground.Nccl.Simulator.Tree.Upward.{depth_of, top_of, sends_up, risen, no_child}
use velo_infra_playground.Nccl.Simulator.Tree.Downward.{sunk}

module _ {V : Type 0} (add : V → V → V) (zero : V) (n : ℕ) (initial : ℕ → ℕ → V) where
  -- The b-th block of GPU i after k steps.
  unfoldable pub value : ℕ → ℕ → ℕ → V
  value ℕ.zero i b = initial i b
  value (ℕ.suc k) i b =
      if ltb k (top_of n)
      then risen add zero n k (value k) i b
      else if ltb k (2 * top_of n)
      then sunk n k (value k) i b
      else value k i b

  -- What GPU i is sent on the way up, and the sum over the GPUs down to a depth.
  abbrev sent_to : ℕ → ℕ → ℕ → ℕ → V
  sent_to k d b i = sum add zero (λ j. if sends_up n d i j then value k j b else zero) n

  abbrev upper : ℕ → ℕ → ℕ → V
  upper k d b = sum add zero (λ i. if leb (depth_of n i) d then value k i b else zero) n

expected_sum-sum :
    {V : Type 0} (add : V → V → V) (zero : V) (initial : ℕ → ℕ → V) (n b : ℕ)
    → sum add zero (λ i. initial i b) n ≡ expected_sum add zero initial n b
unfolding expected_sum
expected_sum-sum add zero initial ℕ.zero b = refl
expected_sum-sum add zero initial (ℕ.suc n) b =
    ap (λ x. add x (initial n b)) (expected_sum-sum add zero initial n b)

module _ {V : Type 0} (add : V → V → V) (zero : V) (laws : AdditionLaws add zero) (n : ℕ)
    (initial : ℕ → ℕ → V) where
  sent_to-none : (k d b i : ℕ) → depth_of n i ≢ d - 1 → sent_to add zero n initial k d b i ≡ zero
  sent_to-none k d b i other =
      sum-ext add zero laws _ (λ j. zero) n (λ j lt. rw (no_child n d i j lt other) refl)
      ∙ sum-zero add zero laws n

  -- Every GPU at a depth below the root sends to just one.
  sent_by :
      (d j : ℕ) (x : V)
      → 0 < d
      → j < n
      → sum add zero (λ i. if sends_up n d i j then x else zero) n
        ≡ (if nat_eq (depth_of n j) d then x else zero)
  sent_by d ℕ.zero x h lt = sum-zero add zero laws n ∙ ground (arith, depth_root n)
  sent_by d (ℕ.suc j) x h lt = elim (Eq-cases (depth_of n (suc j)) d) [
    | inl e ↦
        sum-ext add zero laws _ (λ i. if nat_eq i (j / 2) then x else zero) n
          (λ i i_lt. ground arith)
        ∙ sum-one add zero laws (j / 2) n x (omega arith)
        ∙ ground arith
    | inr e ↦
        sum-ext add zero laws _ (λ i. zero) n (λ i i_lt. ground arith)
        ∙ sum-zero add zero laws n
        ∙ ground arith
  ]

  pub value_up :
      (k i b : ℕ)
      → k < top_of n
      → value add zero n initial (suc k) i b ≡ risen add zero n k (value add zero n initial k) i b
  unfolding value
  value_up k i b up = ground arith

  -- A GPU that stays takes in what it is sent.
  taken_in :
      (k b i : ℕ)
      → k < top_of n
      → (if leb (depth_of n i) (top_of n - suc k)
          then value add zero n initial (suc k) i b
          else zero)
        ≡ add
            (if leb (depth_of n i) (top_of n - suc k) then value add zero n initial k i b else zero)
            (sent_to add zero n initial k (top_of n - k) b i)
  taken_in k b i up = elim (Eq-cases (depth_of n i) (top_of n - k - 1)) [
    | inl e ↦ ground (arith, value_up k i b up)
    | inr e ↦
        ground (arith, value_up k i b up)
        ∙ sym (
            zero_right add zero laws (
              if leb (depth_of n i) (top_of n - suc k)
              then value add zero n initial k i b
              else zero))
        ∙ ap
            (add (
              if leb (depth_of n i) (top_of n - suc k)
              then value add zero n initial k i b
              else zero))
            (sym (sent_to-none k (top_of n - k) b i e))
  ]

  -- The GPUs at depth d and those above it are the GPUs down to depth d.
  joined :
      (d e : ℕ) (x : V)
      → 0 < d
      → add (if leb e (d - 1) then x else zero) (if nat_eq e d then x else zero)
        ≡ (if leb e d then x else zero)
  joined d e x h = ground (arith, zero_right add zero laws x, laws.zero_left x, laws.zero_left zero)

  upper-step :
      (k b : ℕ)
      → k < top_of n
      → upper add zero n initial (suc k) (top_of n - suc k) b
        ≡ upper add zero n initial k (top_of n - k) b
  upper-step k b up =
      let d : ℕ = top_of n - k in
      let v : ℕ → V = λ i. value add zero n initial k i b in
      sum-ext add zero laws _ _ n (λ i i_lt. taken_in k b i up)
      ∙ sum-add add zero laws (λ i. if leb (depth_of n i) (top_of n - suc k) then v i else zero)
          (sent_to add zero n initial k d b) n
      ∙ ap (add (sum add zero (λ i. if leb (depth_of n i) (top_of n - suc k) then v i else zero) n))
          (sum-swap add zero laws (λ i j. if sends_up n d i j then v j else zero) n n
            ∙ sum-ext add zero laws _ _ n (λ j j_lt. sent_by d j (v j) (omega arith) j_lt))
      ∙ sym (
          sum-add add zero laws (λ i. if leb (depth_of n i) (top_of n - suc k) then v i else zero)
            (λ i. if nat_eq (depth_of n i) d then v i else zero) n)
      ∙ sum-ext add zero laws _ _ n (λ i i_lt.
        ap
          (λ e.
            add (if leb (depth_of n i) e then v i else zero)
              (if nat_eq (depth_of n i) d then v i else zero))
          {x = top_of n - suc k} {y = d - 1} (omega arith)
        ∙ joined d (depth_of n i) (v i) (omega arith))

  upper_sum :
      (k b : ℕ)
      → k ≤ top_of n
      → upper add zero n initial k (top_of n - k) b ≡ expected_sum add zero initial n b
  unfolding value
  upper_sum ℕ.zero b h =
      sum-ext add zero laws _ (λ i. initial i b) n
        (λ i i_lt. ground (arith, (depths-Level n i i_lt).1))
      ∙ expected_sum-sum add zero initial n b
  upper_sum (ℕ.suc k) b h = upper-step k b h ∙ upper_sum k b (omega arith)

  -- At the end of the way up the root holds the sum.
  value_root :
      (b : ℕ) → 0 < n → value add zero n initial (top_of n) 0 b ≡ expected_sum add zero initial n b
  value_root b some_gpu =
      sym (sum-one add zero laws 0 n (value add zero n initial (top_of n) 0 b) some_gpu)
      ∙ sum-ext add zero laws _ _ n (λ i i_lt. only_root i i_lt)
      ∙ upper_sum (top_of n) b (omega arith)
    where
      only_root :
          (i : ℕ)
          → i < n
          → (if nat_eq i 0 then value add zero n initial (top_of n) 0 b else zero) ≡ (
              if leb (depth_of n i) (top_of n - top_of n)
              then value add zero n initial (top_of n) i b
              else zero)
      only_root ℕ.zero h = ground (arith, depth_root n h)
      only_root (ℕ.suc i) h = ground (arith, depth_up n i h)

  value_down :
      (m i b : ℕ)
      → m < top_of n
      → value add zero n initial (top_of n + suc m) i b ≡ (
          if nat_eq (depth_of n i) (suc m)
          then value add zero n initial (top_of n + m) ((i - 1) / 2) b
          else value add zero n initial (top_of n + m) i b)
  unfolding value
  value_down m i b h =
      ap (λ k. value add zero n initial k i b) {x = top_of n + suc m} {y = suc (top_of n + m)}
        (omega arith)
      ∙ ground arith

  value_below :
      (m i b : ℕ)
      → i < n
      → m ≤ top_of n
      → depth_of n i ≤ m
      → value add zero n initial (top_of n + m) i b ≡ value add zero n initial (top_of n) 0 b
  value_below ℕ.zero ℕ.zero b i_lt within near =
      ap (λ k. value add zero n initial k 0 b) {x = top_of n + 0} (omega arith)
  value_below ℕ.zero (ℕ.suc i) b i_lt within near = absurd (omega (arith, depth_up n i i_lt))
  value_below (ℕ.suc m) ℕ.zero b i_lt within near =
      value_down m 0 b within
      ∙ ground (arith, depth_root n i_lt)
      ∙ value_below m 0 b i_lt (omega arith) (omega (arith, depth_root n i_lt))
  value_below (ℕ.suc m) (ℕ.suc i) b i_lt within near =
      elim (Eq-cases (depth_of n (suc i)) (suc m)) [
        | inl e ↦
            value_down m (suc i) b within
            ∙ ground arith
            ∙ value_below m (i / 2) b (omega arith) (omega arith) (omega (arith, depth_up n i i_lt))
        | inr e ↦
            value_down m (suc i) b within
            ∙ ground arith
            ∙ value_below m (suc i) b i_lt (omega arith) (ground arith)
      ]

  pub value_last :
      (i b : ℕ)
      → i < n
      → value add zero n initial (2 * top_of n) i b ≡ expected_sum add zero initial n b
  value_last i b i_lt =
      ap (λ k. value add zero n initial k i b) {x = 2 * top_of n} {y = top_of n + top_of n}
        (omega arith)
      ∙ value_below (top_of n) i b i_lt (omega arith) (depths-Level n i i_lt).1
      ∙ value_root b (omega arith)
