-- ===== src/Nccl/Node/Total.antt =====
-- The sum of a block in the order of the ring is its sum in the order of the nodes, for an addition
-- that is associative and commutative.
use velo_infra_playground.Prelude.{ℕ, suc, ◌+◌, ◌-◌, ◌<◌, ◌≡◌, sym, ap, ◌∙◌, arith}
use velo_infra_playground.Nccl.AllReduce.{ahead, ring_sum}
use velo_infra_playground.Nccl.Node.{expected_sum}

-- What is asked of the addition on the values that are summed.
pub record AdditionLaws {V : Type 0} (add : V → V → V) (zero : V) : Type 0 where
  pub assoc : (a b c : V) → add (add a b) c ≡ add a (add b c)
  pub comm : (a b : V) → add a b ≡ add b a
  pub zero_left : (a : V) → add zero a ≡ a

module _ {V : Type 0} (add : V → V → V) (zero : V) (laws : AdditionLaws add zero) (n : ℕ)
    (initial : ℕ → ℕ → V) (b : ℕ) (b_lt : b < n) where
  abbrev upto : ℕ → V
  upto i = expected_sum add zero initial i b

  -- Up to the last node, the ring's sum is a stretch of the nodes' order.
  before_wrap : (d : ℕ) → b + d < n → add (upto b) (ring_sum add n initial b d) ≡ upto (suc (b + d))
  unfolding ring_sum expected_sum
  before_wrap ℕ.zero h = ap (λ k. add (upto k) (initial k b)) (omega arith)
  before_wrap (ℕ.suc d) h =
      ap (add (upto b)) (laws.comm (initial (ahead n b (suc d)) b) (ring_sum add n initial b d))
      ∙ sym (laws.assoc (upto b) (ring_sum add n initial b d) (initial (ahead n b (suc d)) b))
      ∙ ap (λ x. add x (initial (ahead n b (suc d)) b)) (before_wrap d (omega arith))
      ∙ ap (λ j. add (upto (suc (b + d))) (initial j b)) (ground arith)
      ∙ ap (λ j. add (upto j) (initial (b + suc d) b)) {x = suc (b + d)} (omega arith)

  -- After it, the stretch from the first node on comes in front.
  after_wrap :
      (k e : ℕ)
      → k + suc b ≡ n
      → e < b
      → ring_sum add n initial b (suc (k + e)) ≡ add (upto (suc e)) (ring_sum add n initial b k)
  unfolding ring_sum expected_sum
  after_wrap k ℕ.zero h lt =
      ap (λ j. add (initial j b) (ring_sum add n initial b (k + 0))) (ground arith)
      ∙ ap (λ j. add (initial 0 b) (ring_sum add n initial b j)) (omega arith)
      ∙ ap (λ x. add x (ring_sum add n initial b k)) (sym (laws.zero_left (initial 0 b)))
  after_wrap k (ℕ.suc e) h lt =
      ap (λ j. add (initial j b) (ring_sum add n initial b (k + suc e))) (ground arith)
      ∙ ap (λ j. add (initial (suc e) b) (ring_sum add n initial b j)) {y = suc (k + e)}
          (omega arith)
      ∙ ap (add (initial (suc e) b)) (after_wrap k e h (omega arith))
      ∙ sym (laws.assoc (initial (suc e) b) (upto (suc e)) (ring_sum add n initial b k))
      ∙ ap (λ x. add x (ring_sum add n initial b k)) (laws.comm (initial (suc e) b) (upto (suc e)))

-- A whole turn of the ring sums the block over all nodes.
pub ring_sum-expected_sum :
    {V : Type 0} (add : V → V → V) (zero : V)
    → AdditionLaws add zero
    → (n : ℕ) (initial : ℕ → ℕ → V) (b : ℕ) → b < n
    → ring_sum add n initial b (n - 1) ≡ expected_sum add zero initial n b
unfolding expected_sum
ring_sum-expected_sum add zero laws n initial ℕ.zero h =
    sym (laws.zero_left (ring_sum add n initial 0 (n - 1)))
    ∙ before_wrap add zero laws n initial 0 h (n - 1) (omega arith)
    ∙ ap (λ k. expected_sum add zero initial k 0) {x = suc (0 + (n - 1))} (omega arith)
ring_sum-expected_sum add zero laws n initial (ℕ.suc e) h =
    let k = n - 1 - suc e in
    ap (ring_sum add n initial (suc e)) (omega arith)
    ∙ after_wrap add zero laws n initial (suc e) h k e (omega arith) (omega arith)
    ∙ before_wrap add zero laws n initial (suc e) h k (omega arith)
    ∙ ap (λ j. expected_sum add zero initial j (suc e)) {x = suc (suc e + k)} (omega arith)
