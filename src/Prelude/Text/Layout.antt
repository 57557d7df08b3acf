-- ===== src/Prelude/Text/Layout.antt =====
-- What the programs use of Go's `strings` and `fmt` to lay out a text.
use Prim.Native.String.{String, ◌++◌}
use velo_infra_playground.Prelude.{ℕ, suc, ◌-◌, List, [], ◌∷◌}

-- The number of characters.
unfoldable pub text_length : String → ℕ
text_length String.[] = 0
text_length (String.◌∷◌ c s) = suc (text_length s)

-- `strings.Repeat(s, n)`.
unfoldable pub repeat : String → ℕ → String
repeat s ℕ.zero = ""
repeat s (ℕ.suc n) = s ++ repeat s n

-- The verb `%-20s`, for a width of 20.
unfoldable pub pad : ℕ → String → String
unfolding repeat text_length
pad width s = s ++ repeat " " (width - text_length s)

-- `strings.Join`.
unfoldable pub join : String → List String → String
join sep [] = ""
join sep (s ∷ []) = s
join sep (s ∷ t ∷ ts) = s ++ (sep ++ join sep (t ∷ ts))
