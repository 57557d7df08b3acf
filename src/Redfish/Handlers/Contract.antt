-- ===== src/Redfish/Handlers/Contract.antt =====
-- What the two requests that change a system do, in every case.
use velo_infra_playground.Prelude.{
  ◌≡◌, ◌≢◌, none-ne-some, sym, if◌then◌else◌, refl, ap, ◌∙◌, ◌⊎◌, inl, inr, String, Option, none,
  some, true, false, Bool-cases, Option-cases, ◌==◌, string_Eq, arith,
}
use text.Mathlib.TextEquality.{eq_iff}
use velo_infra_playground.Prelude.Dict.{insert}
use velo_infra_playground.Redfish.Types.{PowerState, SystemBoot, RedfishSystem, HardwareStore}
use velo_infra_playground.Redfish.Store
use velo_infra_playground.Redfish.Store.{apply_reset, merge_boot, or_keep}
use velo_infra_playground.Redfish.Power.{ResetType}
use velo_infra_playground.Redfish.Handlers.{reset_system, patch_system, valid_type, Body}

valid_type-ResetType : (t : String) → valid_type t ≡ true → (power : PowerState) × ResetType t power
unfolding valid_type
valid_type-ResetType t e = elim (Bool-cases (t == "On")) [
  | inl p ↦ rw ((eq_iff _ _).0 p) (PowerState.on, ResetType.switch_on)
  | inr p ↦ elim (Bool-cases (t == "ForceOff")) [
    | inl q ↦ rw ((eq_iff _ _).0 q) (PowerState.off, ResetType.force_off)
    | inr q ↦ elim (Bool-cases (t == "GracefulShutdown")) [
      | inl r ↦ rw ((eq_iff _ _).0 r) (PowerState.off, ResetType.graceful_shutdown)
      | inr r ↦ elim (Bool-cases (t == "GracefulRestart")) [
        | inl u ↦ rw ((eq_iff _ _).0 u) (PowerState.on, ResetType.graceful_restart)
        | inr u ↦ elim (Bool-cases (t == "ForceRestart")) [
          | inl v ↦ rw ((eq_iff _ _).0 v) (PowerState.on, ResetType.force_restart)
          | inr v ↦ absurd (ground arith)
        ]
      ]
    ]
  ]
]

ResetType-valid_type : (t : String) (power : PowerState) → ResetType t power → valid_type t ≡ true
unfolding valid_type
ResetType-valid_type _ _ ResetType.switch_on = refl
ResetType-valid_type _ _ ResetType.force_off = refl
ResetType-valid_type _ _ ResetType.graceful_shutdown = refl
ResetType-valid_type _ _ ResetType.force_restart = refl
ResetType-valid_type _ _ ResetType.graceful_restart = refl

module _ (id : String) (s : HardwareStore) where
  reset_absent :
      (type : String) → Store.get_system s id ≡ none → Store.reset_system id type s ≡ (s, none)
  unfolding Store.reset_system Store.get_system
  reset_absent type absent = rw (absent, Store.reset_system) refl

  reset_present :
      (type : String) (sys : RedfishSystem)
      → Store.get_system s id ≡ some sys
      → Store.reset_system id type s ≡ Store.put_system id (apply_reset type sys) s
  unfolding Store.reset_system Store.get_system
  reset_present type sys found = rw (found, Store.reset_system) refl

  update_absent :
      (boot : SystemBoot)
      → Store.get_system s id ≡ none
      → Store.update_system_boot id boot s ≡ (s, none)
  unfolding Store.update_system_boot Store.get_system
  update_absent boot absent = rw (absent, Store.update_system_boot) refl

  update_present :
      (boot : SystemBoot) (sys : RedfishSystem)
      → Store.get_system s id ≡ some sys
      → Store.update_system_boot id boot s
        ≡ Store.put_system id (record sys { boot = merge_boot boot sys.boot }) s
  unfolding Store.update_system_boot Store.get_system
  update_present boot sys found = rw (found, Store.update_system_boot) refl

-- A body that decodes, with a type that the simulator knows.
abbrev pub Known : Option String → Type 0
Known none = ⊥
Known (some reset_type) = (power : PowerState) × ResetType reset_type power

-- A reset request is done and answered 204, which needs a known type and a known system; or the
-- store is as it was, and the answer is 400, for a body or type that is not known, or 404, for a
-- system that is not.
pub reset_system-answers :
    (id : String) (req : Option String) (s : HardwareStore)
    → let (t, answer) = reset_system id req s in
      ((answer.status ≡ 204)
        × (reset_type : String) × (sys : RedfishSystem) × (req ≡ some reset_type)
        × Known req
        × (Store.get_system s id ≡ some sys)
        × (t ≡ record s { systems = insert id (apply_reset reset_type sys) s.systems }))
      ⊎ ((answer.status ≡ 400) × (t ≡ s) × ¬ Known req)
      ⊎ ((answer.status ≡ 404) × (t ≡ s) × Known req × (Store.get_system s id ≡ none))
unfolding reset_system
reset_system-answers id none s = inr (inl (refl, refl, λ h. h))
reset_system-answers id (some type) s = elim (Bool-cases (valid_type type)) [
  | inl p ↦ elim (Option-cases (Store.get_system s id)) [
    | inl absent ↦
        rw (reset_system, p, reset_absent id s type absent, reset_absent id s type absent)
          (inr (inr (refl, refl, valid_type-ResetType type p, absent)))
    | inr (sys, found) ↦
        rw (reset_system, p, reset_present id s type sys found, reset_present id s type sys found)
          (inl (refl, type, sys, refl, valid_type-ResetType type p, found, refl))
  ]
  | inr p ↦
      rw (reset_system, p)
        (inr (
          inl (
            refl,
            refl,
            λ (power, known). none-ne-some (
                ap (λ b. if b then none else some b)
                  (sym (ResetType-valid_type type power known) ∙ p)),
          )))
]

-- A field after a change: the new one, unless that is empty.
abbrev TakenFrom : String → String → String → Type 0
TakenFrom new old result = ((new ≢ "") × (result ≡ new)) ⊎ ((new ≡ "") × (result ≡ old))

or_keep-TakenFrom : (new old : String) → TakenFrom new old (or_keep new old)
or_keep-TakenFrom new old = elim (Bool-cases (new == "")) [
  | inl p ↦ rw p (inr ((eq_iff _ _).0 p, refl))
  | inr p ↦ rw p (inl (λ e. not_empty (rw e at p), refl))
]
  where
    not_empty : true ≡ false → ⊥
    not_empty h = cc

abbrev pub Merged : SystemBoot → SystemBoot → SystemBoot → Type 0
Merged boot old new =
    TakenFrom boot.override_target old.override_target new.override_target
    × TakenFrom boot.override_enabled old.override_enabled new.override_enabled
    × TakenFrom boot.override_mode old.override_mode new.override_mode

-- A patch request with a `Boot` for a known system is answered 200 with the system as it now is: it
-- has each given field of the override that is not empty, the others as they were, and nothing else
-- is changed. Without a `Boot` the answer is 400, for an unknown system 404, and the store is as it
-- was.
pub patch_system-answers :
    (id : String) (req : Option (Option SystemBoot)) (s : HardwareStore)
    → let (t, answer) = patch_system id req s in
      ((boot : SystemBoot) × (sys : RedfishSystem) × (merged : SystemBoot) × (req
          ≡ some (some boot))
        × (Store.get_system s id ≡ some sys)
        × Merged boot sys.boot merged
        × (answer ≡ record { status = 200; body = Body.patched (record sys { boot = merged }) })
        × (t ≡ record s { systems = insert id (record sys { boot = merged }) s.systems }))
      ⊎ ((answer.status ≡ 400) × (t ≡ s) × ((req ≡ none) ⊎ (req ≡ some none)))
      ⊎ ((answer.status ≡ 404) × (t ≡ s) × (Store.get_system s id ≡ none))
unfolding patch_system merge_boot
patch_system-answers id none s = inr (inl (refl, refl, inl refl))
patch_system-answers id (some none) s = inr (inl (refl, refl, inr refl))
patch_system-answers id (some (some boot)) s = elim (Option-cases (Store.get_system s id)) [
  | inl absent ↦
      rw (patch_system, update_absent id s boot absent, update_absent id s boot absent)
        (inr (inr (refl, refl, absent)))
  | inr (sys, found) ↦
      rw (patch_system, update_present id s boot sys found, update_present id s boot sys found)
        (inl (
          boot,
          sys,
          merge_boot boot sys.boot,
          refl,
          found,
          (or_keep-TakenFrom _ _, or_keep-TakenFrom _ _, or_keep-TakenFrom _ _),
          refl,
          refl,
        ))
]
