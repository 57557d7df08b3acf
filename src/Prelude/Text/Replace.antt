-- ===== src/Prelude/Text/Replace.antt =====
-- `strings.Replace` at a prefix.
use Prim.Native.Char.{Char, code}
use Prim.Native.String.{String, ◌++◌}
use text.Mathlib.TextLemmas.{nil-append, cons-append}
use mathlib.Core.Path.{◌≡◌, refl, sym, ap, ◌∙◌}
use mathlib.Core.Option.{some}
use velo_infra_playground.Prelude.Tests.{nat_eq_iff}
use velo_infra_playground.Prelude.Text.{strip_prefix, replace_first}

strip_prefix-append : (t s : String) → strip_prefix (t ++ s) t ≡ some s
unfolding strip_prefix
strip_prefix-append String.[] s = ap some (nil-append s)
strip_prefix-append (String.◌∷◌ d t) s =
    ap (λ u. strip_prefix u (String.◌∷◌ d t)) (cons-append d t s)
    ∙ rw ((nat_eq_iff (code d) (code d)).1 refl) (strip_prefix-append t s)

-- An occurrence at the start of the text is the one that is replaced.
pub replace_first-append :
    (d : Char) (t s new : String)
    → replace_first (String.◌∷◌ d t ++ s) (String.◌∷◌ d t) new ≡ new ++ s
unfolding replace_first
replace_first-append d t s new =
    ap (λ u. replace_first u (String.◌∷◌ d t) new) (cons-append d t s)
    ∙ rw (
      sym (ap (λ u. strip_prefix u (String.◌∷◌ d t)) (cons-append d t s))
          ∙ strip_prefix-append (String.◌∷◌ d t) s,
      replace_first,
    )
