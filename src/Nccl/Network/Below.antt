-- ===== src/Nccl/Network/Below.antt =====
-- What holds of all numbers below another, the least of finitely many values, and their total.
use velo_infra_playground.Prelude.{
  ℕ, suc, ◌+◌, ◌≤◌, ◌<◌, ◌≡◌, ◌≢◌, refl, subst, inl, inr, true, false, ltb, nat_Eq, arith,
  Bool-cases, Eq-cases,
}

-- A property of every number below n.
abbrev pub Below : (ℕ → Type 0) → ℕ → Type 0
Below P ℕ.zero = Unit
Below P (ℕ.suc n) = P n × Below P n

pub Below-at : (P : ℕ → Type 0) (n i : ℕ) → i < n → Below P n → P i
Below-at P ℕ.zero i h b = absurd (omega arith)
Below-at P (ℕ.suc n) i h b = elim (Eq-cases n i) [
  | inl e ↦ subst P e b.0
  | inr ne ↦ Below-at P n i (ground arith) b.1
]

pub Below-all : (P : ℕ → Type 0) (n : ℕ) → ((i : ℕ) → i < n → P i) → Below P n
Below-all P ℕ.zero h = tt
Below-all P (ℕ.suc n) h = (h n (omega arith), Below-all P n (λ i lt. h i (omega arith)))

pub Below-map : {P Q : ℕ → Type 0} (n : ℕ) → ((i : ℕ) → P i → Q i) → Below P n → Below Q n
Below-map ℕ.zero h b = tt
Below-map (ℕ.suc n) h b = (h n b.0, Below-map n h b.1)

-- One of the first n + 1 numbers has the least value.
pub least : (f : ℕ → ℕ) (n : ℕ) → (i : ℕ) × (i < suc n) × Below (λ j. f i ≤ f j) (suc n)
least f ℕ.zero = (0, omega arith, (omega arith, tt))
least f (ℕ.suc n) =
    let (i, i_lt, b) = least f n in
    elim (Bool-cases (ltb (f (suc n)) (f i))) [
      | inl less ↦ (
        suc n,
        omega arith,
        (omega arith, Below-map (suc n) (λ j (h : f i ≤ f j). less_trans less h) b),
      )
      | inr more ↦ (i, omega arith, (not_less more, b))
    ]
  where
    less_trans : {a b c : ℕ} → ltb a b ≡ true → b ≤ c → a ≤ c
    less_trans p q = ground arith

    not_less : {a b : ℕ} → ltb a b ≡ false → b ≤ a
    not_less p = ground arith

pub total : (ℕ → ℕ) → ℕ → ℕ
total f ℕ.zero = 0
total f (ℕ.suc n) = f n + total f n

pub total-same :
    (f g : ℕ → ℕ) (n i : ℕ) → n ≤ i → ((j : ℕ) → i ≢ j → g j ≡ f j) → total g n ≡ total f n
unfolding total
total-same f g ℕ.zero i le h = refl
total-same f g (ℕ.suc n) i le h =
    omega (arith, h n (ground arith), total-same f g n i (omega arith) h)

pub total-less :
    (f g : ℕ → ℕ) (n i : ℕ)
    → i < n
    → g i + 1 ≡ f i
    → ((j : ℕ) → i ≢ j → g j ≡ f j)
    → total g n + 1 ≡ total f n
unfolding total
total-less f g ℕ.zero i lt e h = absurd (omega arith)
total-less f g (ℕ.suc n) i lt e h = elim (Eq-cases i n) [
  | inl here ↦
      omega (arith, subst (λ (k : ℕ). g k + 1 ≡ f k) here e, total-same f g n i (omega arith) h)
  | inr other ↦ omega (arith, h n other, total-less f g n i (ground arith) e h)
]
