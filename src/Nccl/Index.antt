-- ===== src/Nccl/Index.antt =====
-- The block numbers, which both programs compute with Go's `%`.
use velo_infra_playground.Prelude.{
  ℕ, suc, ◌+◌, ◌-◌, ◌*◌, ◌^◌, ◌%◌, ◌≤◌, ◌<◌, ◌≡◌, sym, ap, ◌∙◌, inl, inr, ltb, leb, if◌then◌else◌,
  arith, Bool-cases,
}
use native.Mathlib.Nat.{mod-eq_of_lt, mod_self, mod-eq-sub-mod, mod-lt}
use velo_infra_playground.Prelude.Int.{pos, negsuc, rem, ◌+ℤ◌, ◌-ℤ◌}
use velo_infra_playground.Prelude.Words.{
  add64, sub64, add64_exact, sub64_exact, add64-pos, sub64-pos,
}

-- i - s + n, which is not negative, though i - s may be.
pub shifted :
    (i s n : ℕ)
    → s ≤ i + n
    → i < 2 ^ 62
    → n < 2 ^ 62
    → add64 (sub64 (pos i) (pos s)) (pos n) ≡ pos (i + n - s)
unfolding ◌+ℤ◌ ◌-ℤ◌
shifted i s n h j k =
    ap (λ x. add64 x (pos n))
      (sub64_exact (pos i) (pos s) (record { above = ground arith; below = ground arith }))
    ∙ add64_exact (pos i -ℤ pos s) (pos n) (record { above = ground arith; below = ground arith })
    ∙ ground arith

-- The remainder of a number up to twice the divisor.
pub mod_twice :
    (x n : ℕ)
    → 0 < n
    → x ≤ 2 * n
    → x % n ≡ (if ltb x n then x else if ltb x (2 * n) then x - n else 0)
mod_twice x n h j = grind (arith, mod-eq_of_lt, mod_self, mod-eq-sub-mod)

rem-pos : (x n : ℕ) → rem (pos x) (pos n) ≡ pos (x % n)
unfolding rem
rem-pos x n = ground arith

-- The number i - s, taken round a ring of n.
abbrev pub wrapped : ℕ → ℕ → ℕ → ℕ
wrapped i s n = let x = i + n - s in if ltb x n then x else if ltb x (2 * n) then x - n else 0

pub rem-shifted :
    (i s n : ℕ)
    → 0 < n
    → i ≤ n
    → s ≤ n
    → n < 2 ^ 61
    → rem (add64 (sub64 (pos i) (pos s)) (pos n)) (pos n) ≡ pos (wrapped i s n)
rem-shifted i s n h j k small =
    ap (λ x. rem x (pos n)) (shifted i s n (omega arith) (omega arith) (omega arith))
    ∙ rem-pos (i + n - s) n
    ∙ ap pos (mod_twice (i + n - s) n h (omega arith))

-- Two subtractions in a row.
pub sub64-sub64_one :
    (i k : ℕ)
    → i < 2 ^ 61
    → k < 2 ^ 61
    → sub64 (sub64 (pos i) (pos k)) (pos 1) ≡ sub64 (pos i) (pos (suc k))
unfolding ◌-ℤ◌
sub64-sub64_one i k h j =
    ap (λ x. sub64 x (pos 1))
      (sub64_exact (pos i) (pos k) (record { above = ground arith; below = ground arith }))
    ∙ sub64_exact (pos i -ℤ pos k) (pos 1) (record { above = ground arith; below = ground arith })
    ∙ ground arith
    ∙ sym
        (sub64_exact (pos i) (pos (suc k)) (record { above = ground arith; below = ground arith }))

rem-negsuc : (m n : ℕ) → suc m < n → rem (negsuc m) (pos n) ≡ negsuc m
unfolding rem
rem-negsuc m n h = ground (arith, mod-eq_of_lt {n = suc m} {m = n} h)

add64-negsuc : (m n : ℕ) → m < n → n < 2 ^ 62 → add64 (negsuc m) (pos n) ≡ pos (n - m - 1)
unfolding ◌+ℤ◌
add64-negsuc m n h small =
    add64_exact (negsuc m) (pos n) (record { above = ground arith; below = ground arith })
    ∙ ground arith

sub64-negsuc : (i s : ℕ) → i < s → s < 2 ^ 62 → sub64 (pos i) (pos s) ≡ negsuc (s - i - 1)
unfolding ◌-ℤ◌
sub64-negsuc i s h small =
    sub64_exact (pos i) (pos s) (record { above = ground arith; below = ground arith })
    ∙ ground arith

-- `posMod`, whose first remainder may be negative.
pub rem-rem-shifted :
    (i s n : ℕ)
    → 0 < n
    → i ≤ n
    → s < n
    → n < 2 ^ 61
    → rem (add64 (rem (sub64 (pos i) (pos s)) (pos n)) (pos n)) (pos n) ≡ pos (wrapped i s n)
rem-rem-shifted i s n h j k small = elim (Bool-cases (leb s i)) [
  | inl forward ↦
      ap (λ x. rem (add64 (rem x (pos n)) (pos n)) (pos n))
        (sub64-pos i s (ground arith) (omega arith))
      ∙ ap (λ x. rem (add64 x (pos n)) (pos n)) (rem-pos (i - s) n)
      ∙ ap (λ x. rem x (pos n)) (add64-pos ((i - s) % n) n (omega (arith, mod-lt (i - s) h)))
      ∙ rem-pos ((i - s) % n + n) n
      ∙ ap pos (mod_twice ((i - s) % n + n) n h (omega (arith, mod-lt (i - s) h)))
      ∙ ground (arith, mod_twice (i - s) n)
  | inr behind ↦
      ap (λ x. rem (add64 (rem x (pos n)) (pos n)) (pos n))
        (sub64-negsuc i s (ground arith) (omega arith))
      ∙ ap (λ x. rem (add64 x (pos n)) (pos n)) (rem-negsuc (s - i - 1) n (ground arith))
      ∙ ap (λ x. rem x (pos n)) (add64-negsuc (s - i - 1) n (ground arith) (omega arith))
      ∙ rem-pos (n - (s - i - 1) - 1) n
      ∙ ap pos (mod_twice (n - (s - i - 1) - 1) n h (omega arith))
      ∙ ground arith
]
