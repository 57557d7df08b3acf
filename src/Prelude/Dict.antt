-- ===== src/Prelude/Dict.antt =====
-- A Go map as an association list, over any type of keys with a test of equality.
use Prim.Native.Nat.{ℕ, ◌+◌}
use mathlib.Core.Path.{◌≡◌, sym, ap, subst₂, ◌∙◌}
use mathlib.Core.Logic.{◌≢◌, ◌⊎◌, inl, inr}
use mathlib.Core.Option.{Option, none, some}
use mathlib.Core.List.{List, [], ◌∷◌}
use native.Mathlib.Omega.{arith}
use velo_infra_playground.Prelude.Tests.{
  if◌then◌else◌, Eq, beq_self, beq_ne, Eq-cases, Bool-cases, some_inj, none-ne-some,
}

abbrev pub Dict {ℓ κ} : Type ℓ → Type κ → Type (ℓ ⊔ κ)
Dict K V = List (K × V)

abbrev pub keys {ℓ κ} : {K : Type ℓ} {V : Type κ} → Dict K V → List K
keys [] = []
keys ((k, v) ∷ d) = k ∷ keys d

abbrev pub values {ℓ κ} : {K : Type ℓ} {V : Type κ} → Dict K V → List V
values [] = []
values ((k, v) ∷ d) = v ∷ values d

-- The sum of a measure over the values.
unfoldable pub total_of {ℓ κ} : {K : Type ℓ} {V : Type κ} → (V → ℕ) → Dict K V → ℕ
total_of f [] = 0
total_of f ((k, v) ∷ d) = f v + total_of f d

module _ {ℓ κ} {K : Type ℓ} {V : Type κ} ⦃e : Eq K⦄ where
  -- `d[k]`, with its second result.
  unfoldable pub lookup : K → Dict K V → Option V
  lookup k [] = none
  lookup k ((j, v) ∷ d) = if e.beq j k then some v else lookup k d

  -- `d[k] = v`.
  unfoldable pub insert : K → V → Dict K V → Dict K V
  insert k v [] = (k, v) ∷ []
  insert k v ((j, w) ∷ d) = if e.beq j k then (j, v) ∷ d else (j, w) ∷ insert k v d

module _ {ℓ κ} {K : Type ℓ} {V : Type κ} ⦃e : Eq K⦄ where
  pub lookup-insert_self : (k : K) (v : V) (d : Dict K V) → lookup k (insert k v d) ≡ some v
  unfolding lookup insert
  lookup-insert_self k v [] = rw (beq_self k)
  lookup-insert_self k v ((j, w) ∷ d) = elim (Bool-cases (e.beq j k)) [
    | inl p ↦ simp p
    | inr p ↦ simp p (lookup-insert_self k v d)
  ]

  pub lookup-insert_ne :
      (k j : K) (v : V) (d : Dict K V) → k ≢ j → lookup j (insert k v d) ≡ lookup j d
  unfolding lookup insert
  lookup-insert_ne k j v [] h = rw (beq_ne k j h)
  lookup-insert_ne k j v ((i, w) ∷ d) h = elim (Eq-cases i k) [
    | inl p ↦ rw (p, beq_self k, beq_ne k j h)
    | inr p ↦ rw (beq_ne i k p) (elim (Bool-cases (e.beq i j)) [
      | inl q ↦ simp q
      | inr q ↦ simp q (lookup-insert_ne k j v d h)
    ])
  ]

  -- What a write does to a sum: the old value leaves it and the new one enters.
  pub total_of-insert :
      (f : V → ℕ) (k : K) (v old : V) (d : Dict K V)
      → lookup k d ≡ some old
      → total_of f (insert k v d) + f old ≡ total_of f d + f v
  unfolding lookup insert total_of
  total_of-insert f k v old [] h = cc
  total_of-insert f k v old ((j, w) ∷ d) h = elim (Bool-cases (e.beq j k)) [
    | inl p ↦ ground (arith, p)
    | inr p ↦ ground (arith, p, total_of-insert f k v old d)
  ]

  pub total_of-insert_new :
      (f : V → ℕ) (k : K) (v : V) (d : Dict K V)
      → lookup k d ≡ none
      → total_of f (insert k v d) ≡ total_of f d + f v
  unfolding lookup insert total_of
  total_of-insert_new f k v [] h = omega arith
  total_of-insert_new f k v ((j, w) ∷ d) h = elim (Bool-cases (e.beq j k)) [
    | inl p ↦ ground (arith, p)
    | inr p ↦ ground (arith, p, total_of-insert_new f k v d)
  ]

  -- What is found after a write is the value written, or what was found before at another key.
  pub lookup-insert_cases :
      (k j : K) (v : V) {x : V} (d : Dict K V)
      → lookup j (insert k v d) ≡ some x
      → ((k ≡ j) × (v ≡ x)) ⊎ ((k ≢ j) × (lookup j d ≡ some x))
  lookup-insert_cases k j v d h = elim (Eq-cases k j) [
    | inl p ↦
        inl (p, some_inj (sym (lookup-insert_self k v d) ∙ ap (λ i. lookup i (insert k v d)) p ∙ h))
    | inr q ↦ inr (q, sym (lookup-insert_ne k j v d q) ∙ h)
  ]

-- A property of every entry.
abbrev pub Entries {ℓ κ ι} : {K : Type ℓ} {V : Type κ} → (K → V → Type ι) → Dict K V → Type ι
Entries P [] = Unit
Entries P ((k, v) ∷ d) = P k v × Entries P d

pub Entries-lookup {ℓ κ ι} :
    {K : Type ℓ} {V : Type κ} ⦃e : Eq K⦄ (P : K → V → Type ι) (d : Dict K V)
    → Entries P d
    → (k : K) (v : V) → lookup k d ≡ some v
    → P k v
unfolding lookup
Entries-lookup P [] h k v found = absurd (none-ne-some found)
Entries-lookup ⦃e⦄ P ((j, w) ∷ d) h k v found = elim (Bool-cases (e.beq j k)) [
  | inl p ↦ subst₂ P ((e.beq_iff j k).0 p) (some_inj (rw p at found)) h.0
  | inr p ↦ Entries-lookup P d h.1 k v (rw p at found)
]
