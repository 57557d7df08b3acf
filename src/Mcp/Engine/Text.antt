-- ===== src/Mcp/Engine/Text.antt =====
-- The operations on text of the diagnostics engine (mcp-server/diagnostics.go).
use Prim.Native.Char.{Char, code}
use Prim.Native.String.{String}
use text.Mathlib.TextEquality.{eq_iff}
use velo_infra_playground.Prelude.{
  ◌≡◌, ◌≢◌, inl, inr, false, ◌==◌, string_Eq, Bool-cases, ℕ, Option, none, some, Bool, ◌&&◌, ◌||◌,
  nat_eq, leb, if◌then◌else◌,
}
use velo_infra_playground.Prelude.Text.{has_prefix}
use velo_infra_playground.Prelude.Text.Layout.{text_length, repeat}

unfoldable pub rule : ℕ → String
unfolding repeat
rule n = repeat "─" n

-- `s[:n]`; `none` is the panic of a text that is shorter.
unfoldable pub prefix? : String → ℕ → Option String
prefix? s ℕ.zero = some ""
prefix? String.[] (ℕ.suc n) = none
prefix? (String.◌∷◌ c s) (ℕ.suc n) = elim (prefix? s n) [
  | none ↦ none
  | some t ↦ some (String.◌∷◌ c t)
]

-- `truncate`, whose slice is never out of range.
unfoldable pub truncate : String → ℕ → String
unfolding text_length
truncate s n = if leb (text_length s) n then s else elim (prefix? s n) [ none ↦ s | some t ↦ t ]

-- White space among the ASCII characters.
is_space : Char → Bool
is_space c = leb b'\t' (code c) && leb (code c) b'\r' || nat_eq (code c) b' '

trim_start : String → String
unfolding is_space
trim_start String.[] = ""
trim_start (String.◌∷◌ c s) = let rest = trim_start s in if is_space c then rest else String.◌∷◌ c s

trim_end : String → String
unfolding is_space
trim_end String.[] = ""
trim_end (String.◌∷◌ c s) = push (is_space c) c (trim_end s)
  where
    push : Bool → Char → String → String
    push space c String.[] = if space then "" else String.◌∷◌ c String.[]
    push space c (String.◌∷◌ d t) = String.◌∷◌ c (String.◌∷◌ d t)

-- `strings.TrimSpace(s)`, of an ASCII text.
unfoldable pub trim_space : String → String
unfolding trim_start trim_end
trim_space s = trim_start (trim_end s)

-- `strings.TrimPrefix(s, "/")`.
unfoldable pub trim_slash : String → String
trim_slash String.[] = ""
trim_slash (String.◌∷◌ c s) = if has_prefix (String.◌∷◌ c s) "/" then s else String.◌∷◌ c s

pub not_empty_false : {a : String} → a ≢ "" → (a == "") ≡ false
not_empty_false {a} g = elim (Bool-cases (a == "")) [
  | inl p ↦ absurd (g ((eq_iff a "").0 p))
  | inr p ↦ p
]
