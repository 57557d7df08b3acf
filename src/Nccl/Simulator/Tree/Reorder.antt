-- ===== src/Nccl/Simulator/Tree/Reorder.antt =====
-- Numbers in another order, and functions changed at one index.
use velo_infra_playground.Prelude.{
  ℕ, ◌≤◌, ◌<◌, ◌≡◌, ◌≢◌, refl, sym, ap, subst, ◌∙◌, inl, inr, List, [], ◌∷◌, ◌++◌, length, Bool,
  true, false, Bool-cases, Eq-cases, nat_eq, nat_Eq, arith,
}
use velo_infra_playground.Nccl.Sums.{Shuffle, below_list}
use velo_infra_playground.Nccl.Simulator.Tree.Delivery.{select}

pub append_assoc : {A : Type 0} (xs ys zs : List A) → (xs ++ ys) ++ zs ≡ xs ++ (ys ++ zs)
append_assoc [] ys zs = refl
append_assoc (x ∷ xs) ys zs = ap (λ l. x ∷ l) (append_assoc xs ys zs)

pub Shuffle-refl : (xs : List ℕ) → Shuffle xs xs
Shuffle-refl [] = Shuffle.nil
Shuffle-refl (x ∷ xs) = Shuffle.cons x (Shuffle-refl xs)

pub Shuffle-append : (ds : List ℕ) {xs ys : List ℕ} → Shuffle xs ys → Shuffle (ds ++ xs) (ds ++ ys)
Shuffle-append [] s = s
Shuffle-append (d ∷ ds) s = Shuffle.cons d (Shuffle-append ds s)

pub select_all : (p : ℕ → Bool) (xs : List ℕ) → ((j : ℕ) → p j ≡ true) → select p xs ≡ xs
select_all p [] h = refl
select_all p (x ∷ xs) h = rw (h x, select_all p xs h) refl

select-below :
    (p q : ℕ → Bool) (m : ℕ)
    → ((j : ℕ) → j < m → p j ≡ q j)
    → select p (below_list m) ≡ select q (below_list m)
select-below p q ℕ.zero h = refl
select-below p q (ℕ.suc m) h =
    rw (h m (omega arith), select-below p q m (λ j lt. h j (omega arith))) refl

-- One of the selected goes to the front.
pub Shuffle-front :
    (p q : ℕ → Bool) (j m : ℕ)
    → j < m
    → p j ≡ true
    → q j ≡ false
    → ((x : ℕ) → j ≢ x → p x ≡ q x)
    → Shuffle (j ∷ select q (below_list m)) (select p (below_list m))
Shuffle-front p q j ℕ.zero lt pj qj others = absurd (omega arith)
Shuffle-front p q j (ℕ.suc m) lt pj qj others = elim (Eq-cases j m) [
  | inl here ↦
      rw
        (
          ap p (sym here) ∙ pj,
          ap q (sym here) ∙ qj,
          select-below p q m (λ x x_lt. others x (λ e. apart x x_lt (sym e ∙ here))),
        )
        (subst (λ x. Shuffle (j ∷ select q (below_list m)) (x ∷ select q (below_list m))) here
          (Shuffle-refl _))
  | inr other ↦
      let before = Shuffle-front p q j m (ground arith) pj qj others in
      rw (others m other) (elim (Bool-cases (q m)) [
        | inl both ↦
            rw both (Shuffle.trans (Shuffle.swap j m (Shuffle-refl _)) (Shuffle.cons m before))
        | inr neither ↦ rw neither before
      ])
]
  where
    apart : (x : ℕ) → x < m → x ≡ m → ⊥
    apart x lt e = omega arith

pub same : (i : ℕ) → nat_eq i i ≡ true
same i = ground arith

pub apart : (i j : ℕ) → i ≢ j → nat_eq i j ≡ false
apart i j h = ground arith

-- What holds of one index and of all others.
pub per_index : (P : ℕ → Type 0) (i : ℕ) → P i → ((x : ℕ) → i ≢ x → P x) → (x : ℕ) → P x
per_index P i here others x = elim (Eq-cases i x) [
  | inl e ↦ subst P e here
  | inr other ↦ others x other
]

-- The only message of a list of at most one.
pub alone : {A : Type 0} (x : A) (xs : List A) → length (x ∷ xs) ≤ 1 → xs ≡ []
alone x [] h = refl
alone x (y ∷ xs) h = absurd (omega arith)
