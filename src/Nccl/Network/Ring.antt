-- ===== src/Nccl/Network/Ring.antt =====
-- The neighbours in a ring, and a family that is changed at one place.
use velo_infra_playground.Prelude.{
  ℕ, suc, ◌%◌, ◌-◌, ◌<◌, ◌≡◌, ◌≢◌, ◌⊎◌, refl, sym, ap, ◌∙◌, inl, inr, List, [], ◌∷◌, true, false,
  nat_eq, if◌then◌else◌, arith, Bool-cases, nat_Eq,
}
use native.Mathlib.Nat.{mod-eq_of_lt, mod_self}
use velo_infra_playground.Nccl.Network.{Worker, update, next}

abbrev pub prev : ℕ → ℕ → ℕ
prev n i = if nat_eq i 0 then n - 1 else i - 1

-- The next goroutine, with the wrap-around written out.
pub next_lem : (n i : ℕ) → i < n → next n i ≡ (if nat_eq (suc i) n then 0 else suc i)
next_lem n i h = elim (Bool-cases (nat_eq (suc i) n)) [
  | inl last ↦ rw last (ap (λ k. suc i % k) (sym (eq_of_test (suc i) n last)) ∙ mod_self (suc i))
  | inr inner ↦ rw inner (mod-eq_of_lt (below i n h inner))
]
  where
    eq_of_test : (a b : ℕ) → nat_eq a b ≡ true → a ≡ b
    eq_of_test a b e = ground arith

    below : (a b : ℕ) → a < b → nat_eq (suc a) b ≡ false → suc a < b
    below a b k e = ground arith

pub next-prev : (n i : ℕ) → i < n → next n (prev n i) ≡ i
next-prev n i h = ground (arith, next_lem n (prev n i))

pub prev-next : (n i : ℕ) → i < n → prev n (next n i) ≡ i
prev-next n i h = ground (arith, next_lem n i)

pub next-lt : (n i : ℕ) → i < n → next n i < n
next-lt n i h = ground (arith, next_lem n i)

-- Rounds that a goroutine has sent in.
abbrev pub sent_rounds : {V : Type 0} → Worker V → ℕ
sent_rounds w = if w.sent then suc w.done else w.done

pub List-cases {ℓ} :
    {A : Type ℓ} (xs : List A) → (xs ≡ []) ⊎ ((x : A) × (rest : List A) × (xs ≡ x ∷ rest))
List-cases [] = inl refl
List-cases (x ∷ rest) = inr (x, rest, refl)

pub update_at {ℓ} : {A : Type ℓ} (f : ℕ → A) (i j : ℕ) (v : A) → i ≡ j → update f i v j ≡ v
update_at f i j v e = ground arith

pub update_off {ℓ} : {A : Type ℓ} (f : ℕ → A) (i j : ℕ) (v : A) → i ≢ j → update f i v j ≡ f j
update_off f i j v e = ground arith
