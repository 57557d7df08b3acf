-- ===== src/Nccl/Simulator/Tree/Delivery.antt =====
-- Which GPUs put a message into a channel, whatever the order.
use velo_infra_playground.Prelude.{
  ℕ, ◌+◌, ◌-◌, ◌/◌, ◌≤◌, ◌<◌, ◌≡◌, refl, sym, ap, ◌∙◌, inl, inr, List, [], ◌∷◌, length, Bool, false,
  ◌&&◌, ltb, nat_eq, nat_Eq, if◌then◌else◌, arith, Bool-cases, Eq-cases,
}
use velo_infra_playground.Nccl.Node.Total.{AdditionLaws}
use velo_infra_playground.Nccl.Sums.{
  Shuffle, below_list, sum, sum_list, sum_list-Shuffle, sum_list-below,
}

abbrev pub plus : ℕ → ℕ → ℕ
plus a b = a + b

pub plus-laws : AdditionLaws plus 0
plus-laws = record {
  assoc = λ a b c. omega arith;
  comm = λ a b. omega arith;
  zero_left = λ a. omega arith;
}

abbrev pub select : (ℕ → Bool) → List ℕ → List ℕ
select p [] = []
select p (j ∷ js) = if p j then j ∷ select p js else select p js

-- Whether j hangs on i.
abbrev pub hangs : ℕ → ℕ → Bool
hangs j i = ltb 0 j && nat_eq ((j - 1) / 2) i

length-select_list :
    (p : ℕ → Bool) (js : List ℕ)
    → length (select p js) ≡ sum_list plus 0 (λ j. if p j then 1 else 0) js
length-select_list p [] = refl
length-select_list p (j ∷ js) = elim (Bool-cases (p j)) [
  | inl e ↦ rw e (omega (arith, length-select_list p js))
  | inr e ↦ rw e (omega (arith, length-select_list p js))
]

pub length-select :
    (p : ℕ → Bool) {order : List ℕ} (n : ℕ)
    → Shuffle order (below_list n)
    → length (select p order) ≡ sum plus 0 (λ j. if p j then 1 else 0) n
length-select p {order} n s =
    length-select_list p order
    ∙ sum_list-Shuffle plus 0 plus-laws (λ j. if p j then 1 else 0) s
    ∙ sum_list-below plus 0 plus-laws (λ j. if p j then 1 else 0) n

length_zero : (js : List ℕ) → length js ≡ 0 → js ≡ []
length_zero [] e = refl
length_zero (j ∷ js) e = absurd (omega arith)

number_zero :
    (p : ℕ → Bool) (n : ℕ)
    → ((j : ℕ) → j < n → p j ≡ false)
    → sum plus 0 (λ j. if p j then 1 else 0) n ≡ 0
number_zero p ℕ.zero h = refl
number_zero p (ℕ.suc n) h =
    rw (h n (omega arith)) (omega (arith, number_zero p n (λ j lt. h j (omega arith))))

-- No GPU below n is selected.
pub select_none :
    (p : ℕ → Bool) {order : List ℕ} (n : ℕ)
    → Shuffle order (below_list n)
    → ((j : ℕ) → j < n → p j ≡ false)
    → select p order ≡ []
select_none p {order} n s h = length_zero (select p order) (length-select p n s ∙ number_zero p n h)

pub select-ext : (p q : ℕ → Bool) (js : List ℕ) → ((j : ℕ) → p j ≡ q j) → select p js ≡ select q js
select-ext p q [] h = refl
select-ext p q (j ∷ js) h = rw (h j, select-ext p q js h) refl

-- Exactly one is.
select_same :
    (p : ℕ) {xs ys : List ℕ}
    → Shuffle xs ys
    → select (λ j. nat_eq j p) xs ≡ select (λ j. nat_eq j p) ys
select_same p Shuffle.nil = refl
select_same p (Shuffle.cons x s) = rw (select_same p s) refl
select_same p (Shuffle.swap x y {xs} {ys} s) = rw (select_same p s) (elim (Eq-cases x p) [
  | inl e ↦ elim (Eq-cases y p) [ inl d ↦ rw (e, d) refl | inr d ↦ ground arith ]
  | inr e ↦ ground arith
])
select_same p (Shuffle.trans s t) = select_same p s ∙ select_same p t

select_below : (p n : ℕ) → p < n → select (λ j. nat_eq j p) (below_list n) ≡ p ∷ []
select_below p ℕ.zero h = absurd (omega arith)
select_below p (ℕ.suc n) h = elim (Eq-cases n p) [
  | inl e ↦ ground (arith, select_empty p n)
  | inr e ↦ ground (arith, select_below p n)
]
  where
    select_empty : (p n : ℕ) → n ≤ p → select (λ j. nat_eq j p) (below_list n) ≡ []
    select_empty p ℕ.zero h = refl
    select_empty p (ℕ.suc n) h = ground (arith, select_empty p n)

pub select_one :
    (p : ℕ) {order : List ℕ} (n : ℕ)
    → p < n
    → Shuffle order (below_list n)
    → select (λ j. nat_eq j p) order ≡ p ∷ []
select_one p n h s = select_same p s ∙ select_below p n h

-- A sum over the selected ones.
module _ {V : Type 0} (add : V → V → V) (zero : V) (laws : AdditionLaws add zero) where
  sum_list-select :
      (p : ℕ → Bool) (f : ℕ → V) (js : List ℕ)
      → sum_list add zero f (select p js) ≡ sum_list add zero (λ j. if p j then f j else zero) js
  sum_list-select p f [] = refl
  sum_list-select p f (j ∷ js) = elim (Bool-cases (p j)) [
    | inl e ↦ rw e (ap (add (f j)) (sum_list-select p f js))
    | inr e ↦ rw e (sum_list-select p f js ∙ sym (laws.zero_left _))
  ]

  pub sum_list-select_below :
      (p : ℕ → Bool) (f : ℕ → V) {order : List ℕ} (n : ℕ)
      → Shuffle order (below_list n)
      → sum_list add zero f (select p order) ≡ sum add zero (λ j. if p j then f j else zero) n
  sum_list-select_below p f {order} n s =
      sum_list-select p f order
      ∙ sum_list-Shuffle add zero laws (λ j. if p j then f j else zero) s
      ∙ sum_list-below add zero laws (λ j. if p j then f j else zero) n
