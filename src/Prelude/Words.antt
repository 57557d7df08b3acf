-- ===== src/Prelude/Words.antt =====
-- Go's `int`, `int64` and `int32`: signed words in two's complement, with their wrap-around.
use Prim.Native.Nat.{ℕ, ◌+◌, ◌-◌, ◌*◌, ◌%◌, ◌^◌, ◌≤◌, ◌<◌}
use mathlib.Core.Path.{◌≡◌, ◌∙◌}
use native.Mathlib.Omega.{arith}
use velo_infra_playground.Prelude.Tests.{ltb, if◌then◌else◌}
use velo_infra_playground.Prelude.Int.{ℤ, pos, negsuc, pos_part, neg_part, ◌+ℤ◌, ◌-ℤ◌, ◌*ℤ◌}

-- The value that a word of `2 * half` states stands for.
abbrev pub signed : ℕ → ℕ → ℤ
signed half u = if ltb u half then pos u else negsuc (2 * half - u - 1)

abbrev pub wrap : ℕ → ℤ → ℤ
wrap half z =
    signed half ((pos_part z % (2 * half) + 2 * half - neg_part z % (2 * half)) % (2 * half))

unfoldable pub wrap64 : ℤ → ℤ
wrap64 z = wrap (2 ^ 63) z

unfoldable pub wrap32 : ℤ → ℤ
wrap32 z = wrap (2 ^ 31) z

-- z is a value of a 64-bit signed word.
pub record IsInt64 (z : ℤ) : Type 0 where
  pub above : neg_part z ≤ 2 ^ 63
  pub below : pos_part z < 2 ^ 63

pub record IsInt32 (z : ℤ) : Type 0 where
  pub above : neg_part z ≤ 2 ^ 31
  pub below : pos_part z < 2 ^ 31

pub wrap64_id : (z : ℤ) → IsInt64 z → wrap64 z ≡ z
unfolding wrap64
wrap64_id z h = ground arith

pub wrap32_id : (z : ℤ) → IsInt32 z → wrap32 z ≡ z
unfolding wrap32
wrap32_id z h = ground arith

unfoldable pub add64 : ℤ → ℤ → ℤ
add64 a b = wrap64 (a +ℤ b)

unfoldable pub sub64 : ℤ → ℤ → ℤ
sub64 a b = wrap64 (a -ℤ b)

unfoldable pub mul64 : ℤ → ℤ → ℤ
mul64 a b = wrap64 (a *ℤ b)

-- Where the exact result fits into the word, so it is the result.
pub add64_exact : (a b : ℤ) → IsInt64 (a +ℤ b) → add64 a b ≡ a +ℤ b
unfolding add64
add64_exact a b h = wrap64_id (a +ℤ b) h

pub sub64_exact : (a b : ℤ) → IsInt64 (a -ℤ b) → sub64 a b ≡ a -ℤ b
unfolding sub64
sub64_exact a b h = wrap64_id (a -ℤ b) h

-- Counters that stay non-negative and below the word's bound, as plain numbers.
pub add64-pos : (a b : ℕ) → a + b < 2 ^ 63 → add64 (pos a) (pos b) ≡ pos (a + b)
unfolding ◌+ℤ◌
add64-pos a b h = add64_exact (pos a) (pos b) (ground arith) ∙ ground arith

pub sub64-pos : (a b : ℕ) → b ≤ a → a < 2 ^ 63 → sub64 (pos a) (pos b) ≡ pos (a - b)
unfolding ◌-ℤ◌
sub64-pos a b h k = sub64_exact (pos a) (pos b) (ground arith) ∙ ground arith
