-- ===== src/Mcp/Engine/Search.antt =====
-- Which container a name leads to.
use velo_infra_playground.Prelude.{
  ◌≡◌, ◌≢◌, ◌⊎◌, refl, sym, ap, ◌∙◌, inl, inr, String, List, [], ◌∷◌, ◌++◌, true, false, some, All,
  ◌==◌, string_Eq, Bool-cases, some_inj,
}
use text.Mathlib.TextEquality.{eq_iff}
use velo_infra_playground.Mcp.Engine.{Container, named, find_container}
use velo_infra_playground.Mcp.Engine.Text.{prefix?, trim_slash, not_empty_false}

-- An id that has a short form, its first twelve characters.
abbrev pub HasShort : Container → Type 0
HasShort c = (c.id ≢ "") × (short : String) × (prefix? c.id 12 ≡ some short)

abbrev pub AnyNamed : String → List String → Type 0
AnyNamed name [] = ⊥
AnyNamed name (n ∷ ns) = (trim_slash n ≡ name) ⊎ AnyNamed name ns

-- A name fits a container that has it as one of its names, or that has a name at all and has it as
-- its id or the short form of its id.
abbrev pub FitsNames : String → String → List String → Type 0
FitsNames name id ns = AnyNamed name ns ⊎ ((ns ≢ []) × ((prefix? id 12 ≡ some name) ⊎ (id ≡ name)))

abbrev pub Fits : String → Container → Type 0
Fits name c = FitsNames name c.id c.names

cons_ne_nil : {n : String} {ns : List String} → n ∷ ns ≢ []
cons_ne_nil e = cc

unequal : {a b : String} → (a == b) ≡ false → a ≢ b
unequal {a} {b} p e = clash (sym ((eq_iff a b).1 e) ∙ p)
  where
    clash : true ≡ false → ⊥
    clash q = cc

module _ (name id short : String) (h : prefix? id 12 ≡ some short) where
  named-Fits :
      (ns : List String)
      → ((named name id ns ≡ some true) × FitsNames name id ns)
        ⊎ ((named name id ns ≡ some false) × ¬ FitsNames name id ns)
  unfolding named
  named-Fits [] = inr (refl, λ f. elim f [ inl a ↦ a | inr (some_name, _) ↦ some_name refl ])
  named-Fits (n ∷ ns) = elim (Bool-cases (trim_slash n == name)) [
    | inl p ↦ inl (rw (p, named) refl, inl (inl ((eq_iff _ _).0 p)))
    | inr p ↦ elim (Bool-cases (short == name)) [
      | inl q ↦
          inl (rw (p, h, q, named) refl, inr (cons_ne_nil, inl (h ∙ ap some ((eq_iff _ _).0 q))))
      | inr q ↦ elim (Bool-cases (id == name)) [
        | inl r ↦ inl (rw (p, h, q, r, named) refl, inr (cons_ne_nil, inr ((eq_iff _ _).0 r)))
        | inr r ↦ elim (named-Fits ns) [
          | inl (e, f) ↦ inl (rw (p, h, q, r, named) e, later f)
          | inr (e, f) ↦ inr (
            rw (p, h, q, r, named) e,
            λ g. elim g [
              | inl (inl a) ↦ unequal p a
              | inl (inr a) ↦ f (inl a)
              | inr (_, inl a) ↦ unequal q (some_inj (sym h ∙ a))
              | inr (_, inr a) ↦ unequal r a
            ],
          )
        ]
      ]
    ]
  ]
    where
      later : FitsNames name id ns → FitsNames name id (n ∷ ns)
      later (inl a) = inl (inr a)
      later (inr (_, b)) = inr (cons_ne_nil, b)

-- Where a name leads among containers whose ids have a short form: to the first container that it
-- fits, or to "" if it fits none.
pub find_container-Fits :
    (name : String) (containers : List Container)
    → All HasShort containers
    → ((before : List Container) × (c : Container) × (after : List Container) × (containers
          ≡ before ++ (c ∷ after))
        × All (λ b. ¬ Fits name b) before
        × Fits name c
        × (find_container name containers ≡ some c.id))
      ⊎ (All (λ b. ¬ Fits name b) containers × (find_container name containers ≡ some ""))
unfolding find_container
find_container-Fits name [] h = inr (tt, refl)
find_container-Fits name (c ∷ cs) ((full, short, cut), h) =
    elim (named-Fits name c.id short cut c.names) [
      | inl (e, f) ↦
          inl ([], c, cs, refl, tt, f, rw (e, find_container) (rw (not_empty_false full) refl))
      | inr (e, f) ↦ elim (find_container-Fits name cs h) [
        | inl (before, d, after, split, others, fits, found) ↦ inl (
          c ∷ before,
          d,
          after,
          ap (λ r. c ∷ r) split,
          (f, others),
          fits,
          rw (e, find_container) found,
        )
        | inr (others, missing) ↦ inr ((f, others), rw (e, find_container) missing)
      ]
    ]
