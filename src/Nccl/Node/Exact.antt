-- ===== src/Nccl/Node/Exact.antt =====
-- The sums over the data of nccl-visualizer/main.go in an arithmetic that, like that of `float64`,
-- is exact on the whole numbers up to 2^53 and may round above them.
use velo_infra_playground.Prelude.{
  ℕ, suc, ◌+◌, ◌-◌, ◌*◌, ◌^◌, ◌≤◌, ◌<◌, ◌≡◌, refl, sym, ap, ◌∙◌, Bool, true, arith,
}
use velo_infra_playground.Nccl.AllReduce.{ahead, ring_sum}
use velo_infra_playground.Nccl.Node.{scale, gpu_data, expected_sum}
use velo_infra_playground.Nccl.Node.Total.{AdditionLaws, ring_sum-expected_sum}

-- What IEEE 754 says of the numbers that stand for whole ones up to 2^53: a sum or a product that is
-- not above that is exact, and each compares equal to itself.
pub record ExactIntegers {V : Type 0} (add mul : V → V → V) (same : V → V → Bool) (of_int : ℕ → V)
    : Type 0 where
  pub add_exact : (a b : ℕ) → a + b ≤ 2 ^ 53 → add (of_int a) (of_int b) ≡ of_int (a + b)
  pub mul_exact :
      (a b : ℕ)
      → a ≤ 2 ^ 53
      → b ≤ 2 ^ 53
      → a * b ≤ 2 ^ 53
      → mul (of_int a) (of_int b) ≡ of_int (a * b)
  pub same_exact : (a : ℕ) → a ≤ 2 ^ 53 → same (of_int a) (of_int a) ≡ true

abbrev plus : ℕ → ℕ → ℕ
plus a b = a + b

abbrev times : ℕ → ℕ → ℕ
times a b = a * b

abbrev itself : ℕ → ℕ
itself a = a

-- The same data as whole numbers.
abbrev whole : ℕ → ℕ → ℕ
whole = gpu_data times itself

plus-laws : AdditionLaws plus 0
plus-laws = record {
  assoc = λ a b c. omega arith;
  comm = λ a b. omega arith;
  zero_left = λ a. omega arith;
}

-- The sum of block j over the first k nodes.
abbrev total : ℕ → ℕ → ℕ
total k j = expected_sum plus 0 whole k j

mul_mono : (a k p : ℕ) → a * p ≤ (k + a) * p
mul_mono a k p = omega arith

whole_mono : (i j k : ℕ) → whole i j ≤ whole i (k + j)
unfolding gpu_data
whole_mono i j k = omega (arith, mul_mono (j + 1) k (scale times itself i))

total-block_mono : (n j k : ℕ) → total n j ≤ total n (k + j)
unfolding expected_sum
total-block_mono ℕ.zero j k = omega arith
total-block_mono (ℕ.suc n) j k = omega (arith, total-block_mono n j k, whole_mono n j k)

total-node_mono : (n j k : ℕ) → total n j ≤ total (k + n) j
unfolding expected_sum
total-node_mono n j ℕ.zero = omega (arith, ap (λ k. total k j) {x = 0 + n} {y = n} (omega arith))
total-node_mono n j (ℕ.suc k) = omega (
  arith,
  total-node_mono n j k,
  ap (λ m. total m j) {x = suc k + n} {y = suc (k + n)} (omega arith),
)

largest : total 15 14 ≡ 1666666666666665
unfolding expected_sum gpu_data scale
largest = refl

-- No sum of fifteen nodes or fewer is above 2^53.
total-bounded : (n j : ℕ) → n < 16 → j < 15 → total n j ≤ 2 ^ 53
total-bounded n j h q = omega (
  arith,
  largest,
  total-node_mono n j (15 - n),
  total-block_mono 15 j (14 - j),
  ap (λ k. total k j) {x = 15 - n + n} {y = 15} (omega arith),
  ap (total 15) {x = 14 - j + j} {y = 14} (omega arith),
)

whole-total : (n i j : ℕ) → i < n → whole i j ≤ total n j
unfolding expected_sum
whole-total n i j h = omega (
  arith,
  total-node_mono (suc i) j (n - suc i),
  ap (λ k. total k j) {x = n - suc i + suc i} {y = n} (omega arith),
)

scale-whole : (i : ℕ) → scale times itself i ≤ whole i 0
unfolding gpu_data
scale-whole i = omega arith

ring_sum_mono : (n b d k : ℕ) → ring_sum plus n whole b d ≤ ring_sum plus n whole b (k + d)
unfolding ring_sum
ring_sum_mono n b d ℕ.zero =
    omega (arith, ap (ring_sum plus n whole b) {x = 0 + d} {y = d} (omega arith))
ring_sum_mono n b d (ℕ.suc k) = omega (
  arith,
  ring_sum_mono n b d k,
  ap (ring_sum plus n whole b) {x = suc k + d} {y = suc (k + d)} (omega arith),
)

ring_sum-total : (n b d : ℕ) → b < n → d < n → ring_sum plus n whole b d ≤ total n b
ring_sum-total n b d h q = omega (
  arith,
  ring_sum_mono n b d (n - 1 - d),
  ap (ring_sum plus n whole b) {x = n - 1 - d + d} {y = n - 1} (omega arith),
  ring_sum-expected_sum plus 0 plus-laws n whole b h,
)

module _ {V : Type 0} (add mul : V → V → V) (same : V → V → Bool) (of_int : ℕ → V)
    (exact : ExactIntegers add mul same of_int) (n : ℕ) (few : n < 16) where
  scale-bounded : (i : ℕ) → i < n → scale times itself i ≤ 2 ^ 53
  scale-bounded i h =
      omega (arith, scale-whole i, whole-total n i 0 h, total-bounded n 0 few (omega arith))

  scale-exact : (i : ℕ) → i < n → scale mul of_int i ≡ of_int (scale times itself i)
  unfolding scale
  scale-exact ℕ.zero h = refl
  scale-exact (ℕ.suc i) h =
      ap (λ x. mul x (of_int 10)) (scale-exact i (omega arith))
      ∙ exact.mul_exact (scale times itself i) 10 (scale-bounded i (omega arith)) (omega arith)
          (scale-bounded (suc i) h)

  gpu_data-exact : (i j : ℕ) → i < n → j < n → gpu_data mul of_int i j ≡ of_int (whole i j)
  unfolding gpu_data
  gpu_data-exact i j h q =
      ap (mul (of_int (j + 1))) (scale-exact i h)
      ∙ exact.mul_exact (j + 1) (scale times itself i) (omega arith) (scale-bounded i h)
          (omega (arith, whole-total n i j h, total-bounded n j few (omega arith)))

  -- The sum in the order of the nodes is exact.
  pub expected_sum-exact :
      (k j : ℕ)
      → k ≤ n
      → j < n
      → expected_sum add (of_int 0) (gpu_data mul of_int) k j ≡ of_int (total k j)
  unfolding expected_sum
  expected_sum-exact ℕ.zero j h q = refl
  expected_sum-exact (ℕ.suc k) j h q =
      ap (λ x. add x (gpu_data mul of_int k j)) (expected_sum-exact k j (omega arith) q)
      ∙ ap (add (of_int (total k j))) (gpu_data-exact k j (omega arith) q)
      ∙ exact.add_exact (total k j) (whole k j) (
          omega (
            arith,
            total-bounded n j few (omega arith),
            total-node_mono (suc k) j (n - suc k),
            ap (λ m. total m j) {x = n - suc k + suc k} {y = n} (omega arith),
          ))

  -- So is the sum in the order of the ring.
  pub ring_sum-exact :
      (b d : ℕ)
      → b < n
      → d < n
      → ring_sum add n (gpu_data mul of_int) b d ≡ of_int (ring_sum plus n whole b d)
  unfolding ring_sum
  ring_sum-exact b ℕ.zero h q = gpu_data-exact b b h h
  ring_sum-exact b (ℕ.suc d) h q =
      ap (add (gpu_data mul of_int (ahead n b (suc d)) b)) (ring_sum-exact b d h (omega arith))
      ∙ ap (λ x. add x (of_int (ring_sum plus n whole b d)))
          (gpu_data-exact (ahead n b (suc d)) b (ground arith) h)
      ∙ exact.add_exact (whole (ahead n b (suc d)) b) (ring_sum plus n whole b d)
          (omega (arith, total-bounded n b few (omega arith), ring_sum-total n b (suc d) h q))

  -- The two orders give the same number.
  pub sums-agree :
      (b : ℕ)
      → b < n
      → ring_sum add n (gpu_data mul of_int) b (n - 1)
        ≡ expected_sum add (of_int 0) (gpu_data mul of_int) n b
  sums-agree b h =
      ring_sum-exact b (n - 1) h (omega arith)
      ∙ ap of_int (ring_sum-expected_sum plus 0 plus-laws n whole b h)
      ∙ sym (expected_sum-exact n b (omega arith) h)

  pub same-expected_sum :
      (b : ℕ)
      → b < n
      → let sum = expected_sum add (of_int 0) (gpu_data mul of_int) n b in same sum sum ≡ true
  same-expected_sum b h =
      rw (expected_sum-exact n b (omega arith) h)
        (exact.same_exact (total n b) (total-bounded n b few (omega arith)))
