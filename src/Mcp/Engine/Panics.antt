-- ===== src/Mcp/Engine/Panics.antt =====
-- The slice of a container's id, which panics when the id is too short.
use velo_infra_playground.Prelude.{
  ◌≡◌, ◌≢◌, ◌⊎◌, ◌↔◌, refl, sym, ap, subst, ◌∙◌, inl, inr, String, List, [], ◌∷◌, Bool, true, false,
  none, some, Bool-cases, Option-cases, none-ne-some,
}
use velo_infra_playground.Mcp.Engine.{
  DiagnosticsEngine, Docker, Reply, Container, Outcome, container_rows, list_containers,
  live_list_containers,
}
use velo_infra_playground.Mcp.Engine.Text.{prefix?}

-- Some container has an id of less than twelve characters.
abbrev pub AnyShort : List Container → Type 0
AnyShort [] = ⊥
AnyShort (c ∷ cs) = (prefix? c.id 12 ≡ none) ⊎ AnyShort cs

container_rows-AnyShort : (cs : List Container) → (container_rows cs ≡ none) ↔ AnyShort cs
unfolding container_rows
container_rows-AnyShort [] = (λ e. absurd (none-ne-some (sym e)), λ h. absurd h)
container_rows-AnyShort (c ∷ cs) = elim (Option-cases (prefix? c.id 12)) [
  | inl cut ↦ (λ e. inl cut, λ h. rw (cut, container_rows) refl)
  | inr (short, cut) ↦ elim (Option-cases (container_rows cs)) [
    | inl over ↦ (
      λ e. inr ((container_rows-AnyShort cs).0 over),
      λ h. rw (cut, container_rows) (rw over refl),
    )
    | inr (rows, made) ↦ (
      λ e. absurd (none-ne-some (sym (shown c cs short rows cut made e))),
      λ h. elim h [
        | inl cut' ↦ absurd (none-ne-some (sym cut' ∙ cut))
        | inr later ↦ absurd (none-ne-some (sym ((container_rows-AnyShort cs).1 later) ∙ made))
      ],
    )
  ]
]
  where
    shown :
        (c : Container) (cs : List Container) (short rows : String)
        → prefix? c.id 12 ≡ some short
        → container_rows cs ≡ some rows
        → container_rows (c ∷ cs) ≡ none
        → some rows ≡ none
    shown c cs short rows cut made e =
        absurd (none-ne-some (sym (rw (cut, container_rows, made) at e)))

abbrev rows_of : Reply (List Container) → List Container
rows_of (Reply.reply cs) = cs
rows_of (Reply.failure m) = []

Reply-cases :
    (r : Reply (List Container))
    → ((m : String) × (r ≡ Reply.failure m)) ⊎ ((cs : List Container) × (r ≡ Reply.reply cs))
Reply-cases (Reply.failure m) = inl (m, refl)
Reply-cases (Reply.reply cs) = inr (cs, refl)

abbrev is_panic : Outcome → Bool
is_panic (Outcome.answer s) = false
is_panic (Outcome.answer_bytes s) = false
is_panic (Outcome.error s) = false
is_panic Outcome.panic = true

not_panic : {o : Outcome} → is_panic o ≡ false → o ≢ Outcome.panic
not_panic calm e = clash (sym (ap is_panic e) ∙ calm)
  where
    clash : true ≡ false → ⊥
    clash q = cc

live-panic :
    (docker : Docker)
    → (live_list_containers docker ≡ Outcome.panic)
      ↔ ((cs : List Container) × (docker.container_list ≡ Reply.reply cs) × AnyShort cs)
unfolding live_list_containers
live-panic docker = elim (Reply-cases docker.container_list) [
  | inl (m, e) ↦ (
    λ h. absurd (not_panic refl (rw (e, live_list_containers) at h)),
    λ (cs, e', short). absurd (subst AnyShort (ap rows_of (sym e' ∙ e)) short),
  )
  | inr ([], e) ↦ (
    λ h. absurd (not_panic refl (rw (e, live_list_containers) at h)),
    λ (cs, e', short). absurd (subst AnyShort (ap rows_of (sym e' ∙ e)) short),
  )
  | inr (c ∷ cs, e) ↦ elim (Option-cases (container_rows (c ∷ cs))) [
    | inl over ↦ (
      λ h. (c ∷ cs, e, (container_rows-AnyShort (c ∷ cs)).0 over),
      λ h. rw (e, live_list_containers) (rw over refl),
    )
    | inr (rows, made) ↦ (
      λ h. absurd (not_panic refl (rw (e, live_list_containers, made) at h)),
      λ (cs', e', short). absurd (
          none-ne-some (
            sym (
              (container_rows-AnyShort (c ∷ cs)).1 (subst AnyShort (ap rows_of (sym e' ∙ e)) short))
            ∙ made)),
    )
  ]
]

-- Listing the containers panics exactly when a Docker client is used and lists some container whose
-- id has less than twelve characters.
pub list_containers-panic :
    (e : DiagnosticsEngine)
    → (list_containers e ≡ Outcome.panic) ↔ (
        (e.force_mock ≡ false)
        × (docker : Docker) × (cs : List Container) × (e.docker ≡ some docker)
        × (docker.container_list ≡ Reply.reply cs)
        × AnyShort cs)
unfolding list_containers
list_containers-panic e = elim (Bool-cases e.force_mock) [
  | inl mock ↦
      (λ h. absurd (not_panic refl (rw (mock, list_containers) at h)), λ h. clash (sym mock ∙ h.0))
  | inr live ↦ elim (Option-cases e.docker) [
    | inl missing ↦ (
      λ h. absurd (not_panic refl (rw (live, missing, list_containers) at h)),
      λ (_, docker, _, found, _, _). absurd (none-ne-some (sym missing ∙ found)),
    )
    | inr (docker, found) ↦ (
      λ h.
          let (cs, listed, short) =
            (live-panic docker).0 (rw (live, found, list_containers) at h) in
          (live, docker, cs, found, listed, short),
      λ (_, docker', cs, found', listed, short).
          rw (live, found', list_containers) ((live-panic docker').1 (cs, listed, short)),
    )
  ]
]
  where
    clash : {A : Type 0} → true ≡ false → A
    clash q = cc
