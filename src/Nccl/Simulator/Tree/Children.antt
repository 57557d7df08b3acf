-- ===== src/Nccl/Simulator/Tree/Children.antt =====
-- The tree of the simulator, in which i + 1 hangs on i / 2, against the loop that builds it.
use velo_infra_playground.Prelude.{
  ℕ, suc, ◌-◌, ◌/◌, ◌≤◌, ◌<◌, ◌≡◌, ◌⊎◌, refl, sym, ap, subst, inl, inr, List, [], ◌∷◌, ◌++◌, All,
  Bool, true, false, ◌&&◌, ltb, nat_eq, if◌then◌else◌, arith, Bool-cases, nat_Eq, Eq-cases,
}
use velo_infra_playground.Nccl.Simulator.Tree.{children_upto}

-- The level of a number in the tree in which i + 1 hangs on i / 2.
pub data Level : ℕ → ℕ → Type 0 where
  root : Level 0 0
  child : {i d : ℕ} → Level (i / 2) d → Level (suc i) (suc d)

-- The numbers of the subtree of r.
pub data Under (r : ℕ) : ℕ → Type 0 where
  here : Under r r
  below : {i : ℕ} → Under r (i / 2) → Under r (suc i)

pub Level-unique : {i d e : ℕ} → Level i d → Level i e → d ≡ e
Level-unique root root = refl
Level-unique (child a) (child b) = ap suc (Level-unique a b)

pub Under-le : {r j : ℕ} → Under r j → r ≤ j
Under-le here = omega arith
Under-le (below u) = omega (arith, Under-le u)

abbrev pub Elem : ℕ → List ℕ → Type 0
Elem c [] = ⊥
Elem c (x ∷ xs) = (x ≡ c) ⊎ Elem c xs

Elem-end : (c : ℕ) (xs : List ℕ) → Elem c (xs ++ (c ∷ []))
Elem-end c [] = inl refl
Elem-end c (x ∷ xs) = inr (Elem-end c xs)

Elem-append : (c : ℕ) (xs ys : List ℕ) → Elem c xs → Elem c (xs ++ ys)
Elem-append c [] ys h = absurd h
Elem-append c (x ∷ xs) ys (inl e) = inl e
Elem-append c (x ∷ xs) ys (inr h) = inr (Elem-append c xs ys h)

skip : (c : ℕ) (xs ys : List ℕ) (b : Bool) → Elem c xs → Elem c (if b then xs ++ ys else xs)
skip c xs ys true h = Elem-append c xs ys h
skip c xs ys false h = h

-- The children of p are the numbers that hang on it.
pub children_upto-Elem : (n i : ℕ) → suc i < n → Elem (suc i) (children_upto n (i / 2))
unfolding children_upto
children_upto-Elem ℕ.zero i h = absurd (omega arith)
children_upto-Elem (ℕ.suc n) i h = elim (Eq-cases n (suc i)) [
  | inl e ↦ rw (hangs n i e) (
      subst (λ k. Elem k (children_upto n (i / 2) ++ (n ∷ []))) e
        (Elem-end n (children_upto n (i / 2))))
  | inr ne ↦
      skip (suc i) (children_upto n (i / 2)) (n ∷ []) _ (children_upto-Elem n i (ground arith))
]
  where
    hangs : (m k : ℕ) → m ≡ suc k → (ltb 0 m && nat_eq ((m - 1) / 2) (k / 2)) ≡ true
    hangs m k e = ground arith

abbrev pub Hangs : ℕ → ℕ → ℕ → Type 0
Hangs n p c = (c < n) × (i : ℕ) × (c ≡ suc i) × (i / 2 ≡ p)

All-end : (P : ℕ → Type 0) (xs : List ℕ) (c : ℕ) → All P xs → P c → All P (xs ++ (c ∷ []))
All-end P [] c h k = (k, tt)
All-end P (x ∷ xs) c h k = (h.0, All-end P xs c h.1 k)

pub children_upto-Hangs : (n m p : ℕ) → m ≤ n → All (Hangs n p) (children_upto m p)
unfolding children_upto
children_upto-Hangs n ℕ.zero p h = tt
children_upto-Hangs n (ℕ.suc m) p h = elim (Bool-cases (ltb 0 m && nat_eq ((m - 1) / 2) p)) [
  | inl e ↦ rw e (
      All-end (Hangs n p) (children_upto m p) m (children_upto-Hangs n m p (omega arith))
        (omega arith, m - 1, from_test m p e, halves m p e))
  | inr e ↦ rw e (children_upto-Hangs n m p (omega arith))
]
  where
    from_test : (k q : ℕ) → (ltb 0 k && nat_eq ((k - 1) / 2) q) ≡ true → k ≡ suc (k - 1)
    from_test k q e = ground arith

    halves : (k q : ℕ) → (ltb 0 k && nat_eq ((k - 1) / 2) q) ≡ true → (k - 1) / 2 ≡ q
    halves k q e = ground arith

-- The first step on the way down to j.
pub first_step : {r j : ℕ} → Under r j → (r ≡ j) ⊎ ((i : ℕ) × (i / 2 ≡ r) × Under (suc i) j)
first_step here = inl refl
first_step (below {i} u) = elim (first_step u) [
  | inl e ↦ inr (i, sym e, here)
  | inr (k, e, v) ↦ inr (k, e, below v)
]

pub Under-root : {j d : ℕ} → Level j d → Under 0 j
Under-root root = here
Under-root (child l) = below (Under-root l)

pub Level-exists : (n j : ℕ) → j < n → (d : ℕ) × Level j d
Level-exists ℕ.zero j h = absurd (omega arith)
Level-exists (ℕ.suc n) ℕ.zero h = (0, root)
Level-exists (ℕ.suc n) (ℕ.suc i) h =
    let (d, l) = Level-exists n (i / 2) (omega arith) in (suc d, child l)

pub Hangs-Level : {n p c d : ℕ} → Level p d → Hangs n p c → Level c (suc d)
Hangs-Level {d} l (_, i, e, half) =
    subst (λ k. Level k (suc d)) (sym e) (child (subst (λ k. Level k d) (sym half) l))
