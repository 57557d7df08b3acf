-- ===== src/Prelude/Text.antt =====
-- What the program uses of Go's `strings` and `strconv`, over native texts.
pub mod Decimal
pub mod Replace
pub mod Layout
use Prim.Native.Nat.{ℕ, ◌+◌, ◌-◌, ◌*◌, ◌/◌, ◌%◌, ◌^◌, zero, suc}
use Prim.Native.Char.{Char, code}
use Prim.Native.String.{String, ◌++◌}
use mathlib.Core.Path.{◌≡◌, refl}
use mathlib.Core.Bool.{Bool, true, false, ◌&&◌, ◌||◌}
use mathlib.Core.Option.{Option, none, some}
use mathlib.Core.List.{List, [], ◌∷◌}
use velo_infra_playground.Prelude.Tests.{ltb, leb, nat_eq, if◌then◌else◌}
use velo_infra_playground.Prelude.Int.{ℤ, pos, negsuc, sub_ℕ}

-- Puts a character before the first word.
push_char : Char → List String → List String
push_char c [] = String.◌∷◌ c String.[] ∷ []
push_char c (w ∷ ws) = String.◌∷◌ c w ∷ ws

-- `strings.Split(s, sep)`, for a separator of one ASCII character.
unfoldable pub split : ℕ → String → List String
unfolding push_char
split sep String.[] = String.[] ∷ []
split sep (String.◌∷◌ c s) =
    let rest = split sep s in if nat_eq (code c) sep then String.[] ∷ rest else push_char c rest

-- `strings.HasPrefix(s, t)`.
unfoldable pub has_prefix : String → String → Bool
has_prefix s String.[] = true
has_prefix String.[] (String.◌∷◌ d t) = false
has_prefix (String.◌∷◌ c s) (String.◌∷◌ d t) = nat_eq (code c) (code d) && has_prefix s t

-- `strings.Contains(s, t)`.
unfoldable pub contains : String → String → Bool
unfolding has_prefix
contains String.[] t = has_prefix String.[] t
contains (String.◌∷◌ c s) t = has_prefix (String.◌∷◌ c s) t || contains s t

-- The digits of a decimal number, most significant first; `none` at any other character.
scan_digits : String → ℕ → Option ℕ
scan_digits String.[] n = some n
scan_digits (String.◌∷◌ c s) n =
    let rest = scan_digits s (n * 10 + (code c - b'0')) in
    if leb b'0' (code c) && leb (code c) b'9' then rest else none

scan_unsigned : String → Option ℕ
unfolding scan_digits
scan_unsigned String.[] = none
scan_unsigned (String.◌∷◌ c s) = scan_digits (String.◌∷◌ c s) 0

in_range : Bool → Option ℕ → Option ℤ
in_range negative none = none
in_range true (some n) = if leb n (2 ^ 63) then some (sub_ℕ 0 n) else none
in_range false (some n) = if ltb n (2 ^ 63) then some (pos n) else none

-- `strconv.ParseInt(s, 10, 64)` and `strconv.Atoi(s)`: an optional sign, one digit at least, and
-- a value of 64 bits; `none` is the error.
unfoldable pub parse_int : String → Option ℤ
unfolding scan_unsigned in_range
parse_int String.[] = none
parse_int (String.◌∷◌ c s) =
    if nat_eq (code c) b'-'
    then in_range true (scan_unsigned s)
    else if nat_eq (code c) b'+'
    then in_range false (scan_unsigned s)
    else in_range false (scan_unsigned (String.◌∷◌ c s))

-- The pieces of a formatted text, in order.
unfoldable pub concat : List String → String
concat [] = String.[]
concat (s ∷ ss) = s ++ concat ss

digit : ℕ → Char
digit d =
    if nat_eq d 0
    then "0"
    else if nat_eq d 1
    then "1"
    else if nat_eq d 2
    then "2"
    else if nat_eq d 3
    then "3"
    else if nat_eq d 4
    then "4"
    else if nat_eq d 5
    then "5"
    else if nat_eq d 6
    then "6"
    else if nat_eq d 7
    then "7"
    else if nat_eq d 8
    then "8"
    else "9"

-- The digits of n in front of `out`; a number has fewer digits than `suc n`, which is the fuel.
show_digits : ℕ → ℕ → String → String
show_digits zero n out = out
show_digits (suc f) n out =
    let rest = show_digits f (n / 10) (String.◌∷◌ (digit (n % 10)) out) in
    if ltb n 10 then String.◌∷◌ (digit n) out else rest

-- The verb `%d`.
unfoldable pub show_int : ℤ → String
unfolding show_digits digit
show_int (pos n) = show_digits (suc n) n String.[]
show_int (negsuc n) = String.◌∷◌ "-" (show_digits (suc (suc n)) (suc n) String.[])

show_int_example : show_int (negsuc 10119) ≡ "-10120"
unfolding show_int
show_int_example = refl

parse_int_example : parse_int "-10120" ≡ some (negsuc 10119)
unfolding parse_int
parse_int_example = refl

split_example : split b',' "node-1,node-2" ≡ "node-1" ∷ "node-2" ∷ []
unfolding split
split_example = refl

-- What follows the prefix t of s, if t is one.
strip_prefix : String → String → Option String
strip_prefix s String.[] = some s
strip_prefix String.[] (String.◌∷◌ d t) = none
strip_prefix (String.◌∷◌ c s) (String.◌∷◌ d t) =
    let rest = strip_prefix s t in if nat_eq (code c) (code d) then rest else none

-- `strings.Replace(s, old, new, 1)`, for an `old` that is not empty.
unfoldable pub replace_first : String → String → String → String
unfolding strip_prefix
replace_first String.[] old new = String.[]
replace_first (String.◌∷◌ c s) old new =
    let rest = String.◌∷◌ c (replace_first s old new) in
    elim (strip_prefix (String.◌∷◌ c s) old) [ none ↦ rest | some after ↦ new ++ after ]
