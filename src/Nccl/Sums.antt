-- ===== src/Nccl/Sums.antt =====
-- Sums over the first n numbers, and over lists of numbers in any order, for an addition that is
-- associative and commutative.
use velo_infra_playground.Prelude.{
  ℕ, ◌<◌, ◌≡◌, refl, sym, ap, ◌∙◌, inl, inr, List, [], ◌∷◌, nat_eq, nat_Eq, if◌then◌else◌, arith,
  Eq-cases,
}
use velo_infra_playground.Nccl.Node.Total.{AdditionLaws}

-- The same numbers in another order.
pub data Shuffle : List ℕ → List ℕ → Type 0 where
  nil : Shuffle [] []
  cons : (x : ℕ) {xs ys : List ℕ} → Shuffle xs ys → Shuffle (x ∷ xs) (x ∷ ys)
  swap : (x y : ℕ) {xs ys : List ℕ} → Shuffle xs ys → Shuffle (x ∷ y ∷ xs) (y ∷ x ∷ ys)
  trans : {xs ys zs : List ℕ} → Shuffle xs ys → Shuffle ys zs → Shuffle xs zs

-- The numbers below n.
abbrev pub below_list : ℕ → List ℕ
below_list ℕ.zero = []
below_list (ℕ.suc n) = n ∷ below_list n

abbrev pub sum {ℓ} : {V : Type ℓ} → (V → V → V) → V → (ℕ → V) → ℕ → V
sum add zero f ℕ.zero = zero
sum add zero f (ℕ.suc n) = add (sum add zero f n) (f n)

abbrev pub sum_list : {V : Type 0} → (V → V → V) → V → (ℕ → V) → List ℕ → V
sum_list add zero f [] = zero
sum_list add zero f (x ∷ xs) = add (f x) (sum_list add zero f xs)

module _ {V : Type 0} (add : V → V → V) (zero : V) (laws : AdditionLaws add zero) where
  pub zero_right : (a : V) → add a zero ≡ a
  zero_right a = laws.comm a zero ∙ laws.zero_left a

  -- (a + b) + (c + d) and (a + c) + (b + d).
  pub interchange : (a b c d : V) → add (add a b) (add c d) ≡ add (add a c) (add b d)
  interchange a b c d =
      laws.assoc a b (add c d)
      ∙ ap (add a) (sym (laws.assoc b c d) ∙ ap (λ x. add x d) (laws.comm b c) ∙ laws.assoc c b d)
      ∙ sym (laws.assoc a c (add b d))

  pub sum-ext :
      (f g : ℕ → V) (n : ℕ) → ((i : ℕ) → i < n → f i ≡ g i) → sum add zero f n ≡ sum add zero g n
  sum-ext f g ℕ.zero h = refl
  sum-ext f g (ℕ.suc n) h =
      ap (λ x. add x (f n)) (sum-ext f g n (λ i lt. h i (omega arith)))
      ∙ ap (add (sum add zero g n)) (h n (omega arith))

  pub sum-zero : (n : ℕ) → sum add zero (λ i. zero) n ≡ zero
  sum-zero ℕ.zero = refl
  sum-zero (ℕ.suc n) = zero_right (sum add zero (λ i. zero) n) ∙ sum-zero n

  pub sum-add :
      (f g : ℕ → V) (n : ℕ)
      → sum add zero (λ i. add (f i) (g i)) n ≡ add (sum add zero f n) (sum add zero g n)
  sum-add f g ℕ.zero = sym (laws.zero_left zero)
  sum-add f g (ℕ.suc n) =
      ap (λ x. add x (add (f n) (g n))) (sum-add f g n)
      ∙ interchange (sum add zero f n) (sum add zero g n) (f n) (g n)

  pub sum-swap :
      (f : ℕ → ℕ → V) (n m : ℕ)
      → sum add zero (λ i. sum add zero (f i) m) n
        ≡ sum add zero (λ j. sum add zero (λ i. f i j) n) m
  sum-swap f ℕ.zero m = sym (sum-zero m)
  sum-swap f (ℕ.suc n) m =
      ap (λ x. add x (sum add zero (f n) m)) (sum-swap f n m)
      ∙ sym (sum-add (λ j. sum add zero (λ i. f i j) n) (f n) m)

  -- A sum with one term, and with none.
  sum-none : (f : ℕ → V) (n : ℕ) → ((i : ℕ) → i < n → f i ≡ zero) → sum add zero f n ≡ zero
  sum-none f n h = sum-ext f (λ i. zero) n h ∙ sum-zero n

  pub sum-one : (p n : ℕ) (x : V) → p < n → sum add zero (λ i. if nat_eq i p then x else zero) n ≡ x
  sum-one p ℕ.zero x h = absurd (omega arith)
  sum-one p (ℕ.suc n) x h = elim (Eq-cases n p) [
    | inl e ↦
        ap (λ y. add y (if nat_eq n p then x else zero)) (sum-none _ n (λ i lt. ground arith))
        ∙ laws.zero_left (if nat_eq n p then x else zero)
        ∙ ground arith
    | inr ne ↦
        ap (add (sum add zero (λ i. if nat_eq i p then x else zero) n)) (ground arith)
        ∙ zero_right (sum add zero (λ i. if nat_eq i p then x else zero) n)
        ∙ sum-one p n x (ground arith)
  ]

  pub sum_list-Shuffle :
      (f : ℕ → V) {xs ys : List ℕ} → Shuffle xs ys → sum_list add zero f xs ≡ sum_list add zero f ys
  sum_list-Shuffle f Shuffle.nil = refl
  sum_list-Shuffle f (Shuffle.cons x s) = ap (add (f x)) (sum_list-Shuffle f s)
  sum_list-Shuffle f (Shuffle.swap x y {xs} {ys} s) =
      sym (laws.assoc (f x) (f y) (sum_list add zero f xs))
      ∙ ap (λ z. add z (sum_list add zero f xs)) (laws.comm (f x) (f y))
      ∙ laws.assoc (f y) (f x) (sum_list add zero f xs)
      ∙ ap (λ r. add (f y) (add (f x) r)) (sum_list-Shuffle f s)
  sum_list-Shuffle f (Shuffle.trans s t) = sum_list-Shuffle f s ∙ sum_list-Shuffle f t

  pub sum_list-below : (f : ℕ → V) (n : ℕ) → sum_list add zero f (below_list n) ≡ sum add zero f n
  sum_list-below f ℕ.zero = refl
  sum_list-below f (ℕ.suc n) =
      laws.comm (f n) (sum_list add zero f (below_list n))
      ∙ ap (λ x. add x (f n)) (sum_list-below f n)
