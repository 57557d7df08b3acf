-- ===== src/Prelude/Text/Decimal.antt =====
-- What `%d` prints, `strconv.ParseInt` reads back.
use Prim.Native.Nat.{ℕ, zero, suc, ◌+◌, ◌*◌, ◌/◌, ◌%◌, ◌^◌, ◌≤◌, ◌<◌}
use Prim.Native.Char.{code}
use Prim.Native.String.{String}
use mathlib.Core.Path.{◌≡◌, refl, ap, ◌∙◌}
use mathlib.Core.Logic.{inl, inr}
use mathlib.Core.Bool.{true, false}
use mathlib.Core.Option.{some}
use native.Mathlib.Omega.{arith}
use velo_infra_playground.Prelude.Tests.{ltb, Bool-cases}
use velo_infra_playground.Prelude.Int.{ℤ, pos, negsuc}
use velo_infra_playground.Prelude.Words.{IsInt64}
use velo_infra_playground.Prelude.Text.{
  digit, show_digits, show_int, scan_digits, scan_unsigned, in_range, parse_int,
}

code-digit : (d : ℕ) → d < 10 → code (digit d) ≡ b'0' + d
unfolding digit
code-digit zero h = refl
code-digit (suc zero) h = refl
code-digit (suc (suc zero)) h = refl
code-digit (suc (suc (suc zero))) h = refl
code-digit (suc (suc (suc (suc zero)))) h = refl
code-digit (suc (suc (suc (suc (suc zero))))) h = refl
code-digit (suc (suc (suc (suc (suc (suc zero)))))) h = refl
code-digit (suc (suc (suc (suc (suc (suc (suc zero))))))) h = refl
code-digit (suc (suc (suc (suc (suc (suc (suc (suc zero)))))))) h = refl
code-digit (suc (suc (suc (suc (suc (suc (suc (suc (suc zero))))))))) h = refl
code-digit (suc (suc (suc (suc (suc (suc (suc (suc (suc (suc d)))))))))) h = absurd (omega arith)

scan_digit :
    (d a : ℕ) (out : String)
    → d < 10
    → scan_digits (String.◌∷◌ (digit d) out) a ≡ scan_digits out (a * 10 + d)
unfolding scan_digits
scan_digit d a out h = ground (arith, code-digit d h)

scan_digits-show_digits :
    (f n : ℕ) (out : String) → n < f → scan_digits (show_digits f n out) 0 ≡ scan_digits out n
unfolding show_digits
scan_digits-show_digits zero n out h = absurd (omega arith)
scan_digits-show_digits (suc f) n out h = elim (Bool-cases (ltb n 10)) [
  | inl last ↦ rw last (scan_digit n 0 out (ground arith) ∙ ap (scan_digits out) (omega arith))
  | inr more ↦ rw more (
      scan_digits-show_digits f (n / 10) (String.◌∷◌ (digit (n % 10)) out) (ground arith)
      ∙ scan_digit (n % 10) (n / 10) out (omega arith)
      ∙ ap (scan_digits out) (omega arith))
]

-- The text begins with a digit.
abbrev StartsDigit : String → Type 0
StartsDigit String.[] = ⊥
StartsDigit (String.◌∷◌ c s) = (48 ≤ code c) × (code c ≤ 57)

show_digits-StartsDigit : (f n : ℕ) (out : String) → n < f → StartsDigit (show_digits f n out)
unfolding show_digits
show_digits-StartsDigit zero n out h = absurd (omega arith)
show_digits-StartsDigit (suc f) n out h = elim (Bool-cases (ltb n 10)) [
  | inl last ↦ rw last (ground (arith, code-digit n), ground (arith, code-digit n))
  | inr more ↦
      rw more (show_digits-StartsDigit f (n / 10) (String.◌∷◌ (digit (n % 10)) out) (ground arith))
]

scan_unsigned-digits : (s : String) → StartsDigit s → scan_unsigned s ≡ scan_digits s 0
unfolding scan_unsigned
scan_unsigned-digits String.[] h = absurd h
scan_unsigned-digits (String.◌∷◌ c s) h = refl

parse_int-digits : (s : String) → StartsDigit s → parse_int s ≡ in_range false (scan_unsigned s)
unfolding parse_int
parse_int-digits String.[] h = absurd h
parse_int-digits (String.◌∷◌ c s) h = ground arith

scan_unsigned-show : (n : ℕ) → scan_unsigned (show_digits (suc n) n String.[]) ≡ some n
unfolding scan_digits
scan_unsigned-show n =
    scan_unsigned-digits _ (show_digits-StartsDigit (suc n) n String.[] (omega arith))
    ∙ scan_digits-show_digits (suc n) n String.[] (omega arith)

parse_int-minus : (s : String) → parse_int (String.◌∷◌ "-" s) ≡ in_range true (scan_unsigned s)
unfolding parse_int
parse_int-minus s = refl

in_range-pos : (n : ℕ) → n < 2 ^ 63 → in_range false (some n) ≡ some (pos n)
unfolding in_range
in_range-pos n h = ground arith

in_range-negsuc : (n : ℕ) → suc n ≤ 2 ^ 63 → in_range true (some (suc n)) ≡ some (negsuc n)
unfolding in_range
in_range-negsuc n h = ground arith

-- A 64-bit integer that is printed is read back as itself.
pub parse_int-show_int : (z : ℤ) → IsInt64 z → parse_int (show_int z) ≡ some z
unfolding show_int
parse_int-show_int (pos n) h =
    parse_int-digits _ (show_digits-StartsDigit (suc n) n String.[] (omega arith))
    ∙ ap (in_range false) (scan_unsigned-show n)
    ∙ in_range-pos n h.below
parse_int-show_int (negsuc n) h =
    parse_int-minus (show_digits (suc (suc n)) (suc n) String.[])
    ∙ ap (in_range true) (scan_unsigned-show (suc n))
    ∙ in_range-negsuc n h.above
