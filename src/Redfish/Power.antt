-- ===== src/Redfish/Power.antt =====
-- Power and status of a system.
use velo_infra_playground.Prelude.{
  ◌≡◌, refl, ◌∙◌, some_inj, subst, sym, ap, ◌⊎◌, inl, inr, String, some, arith, ◌==◌, string_Eq,
  Eq-cases, Option-cases, Bool-cases,
}
use text.Mathlib.TextEquality.{eq_iff}
use velo_infra_playground.Prelude.Dict.{lookup, insert, lookup-insert_self, lookup-insert_ne}
use velo_infra_playground.Redfish.Types.{
  PowerState, ResourceState, SystemBoot, RedfishSystem, HardwareStore,
}
use velo_infra_playground.Redfish.Store.{
  apply_reset, merge_boot, reset_system, update_system_boot, get_system,
}

-- The state that a power state goes with.
abbrev pub state_of : PowerState → ResourceState
state_of PowerState.on = ResourceState.enabled
state_of PowerState.off = ResourceState.standby_offline

-- The five types that the simulator knows, and the power that each leaves.
pub data ResetType : String → PowerState → Type 0 where
  switch_on : ResetType "On" PowerState.on
  force_off : ResetType "ForceOff" PowerState.off
  graceful_shutdown : ResetType "GracefulShutdown" PowerState.off
  force_restart : ResetType "ForceRestart" PowerState.on
  graceful_restart : ResetType "GracefulRestart" PowerState.on

-- A reset of a known type leaves the power that the type asks for, and the status that goes with it.
pub apply_reset-power :
    (reset_type : String) (power : PowerState) (sys : RedfishSystem)
    → ResetType reset_type power
    → ((apply_reset reset_type sys).power_state ≡ power)
      × ((apply_reset reset_type sys).status.state ≡ state_of power)
unfolding apply_reset
apply_reset-power _ _ sys switch_on = (refl, refl)
apply_reset-power _ _ sys force_off = (refl, refl)
apply_reset-power _ _ sys graceful_shutdown = (refl, refl)
apply_reset-power _ _ sys force_restart = (refl, refl)
apply_reset-power _ _ sys graceful_restart = (refl, refl)

-- A reset keeps what a system is, and its boot override but for one that was set for one boot and
-- is used up, which only the two restarts do.
pub apply_reset-boot :
    (reset_type : String) (power : PowerState) (sys : RedfishSystem)
    → ResetType reset_type power
    → let new = apply_reset reset_type sys in
      (new.id ≡ sys.id)
      × (new.model ≡ sys.model)
      × (new.boot.override_target ≡ sys.boot.override_target)
      × (new.boot.override_mode ≡ sys.boot.override_mode)
      × ((new.boot ≡ sys.boot)
          ⊎ ((sys.boot.override_enabled ≡ "Once")
              × (new.boot.override_enabled ≡ "Disabled")
              × ((reset_type ≡ "ForceRestart") ⊎ (reset_type ≡ "GracefulRestart"))))
unfolding apply_reset
apply_reset-boot _ _ sys switch_on = (refl, refl, refl, refl, inl refl)
apply_reset-boot _ _ sys force_off = (refl, refl, refl, refl, inl refl)
apply_reset-boot _ _ sys graceful_shutdown = (refl, refl, refl, refl, inl refl)
apply_reset-boot _ _ sys force_restart = elim (Bool-cases (sys.boot.override_enabled == "Once")) [
  | inl p ↦ rw p (refl, refl, refl, refl, inr ((eq_iff _ _).0 p, refl, inl refl))
  | inr p ↦ rw p (refl, refl, refl, refl, inl refl)
]
apply_reset-boot _ _ sys graceful_restart =
    elim (Bool-cases (sys.boot.override_enabled == "Once")) [
      | inl p ↦ rw p (refl, refl, refl, refl, inr ((eq_iff _ _).0 p, refl, inr refl))
      | inr p ↦ rw p (refl, refl, refl, refl, inl refl)
    ]

-- The status says what the power is.
abbrev pub IsCoherent : RedfishSystem → Type 0
IsCoherent sys = sys.status.state ≡ state_of sys.power_state

apply_reset-IsCoherent :
    (reset_type : String) (sys : RedfishSystem)
    → IsCoherent sys
    → IsCoherent (apply_reset reset_type sys)
unfolding apply_reset
apply_reset-IsCoherent reset_type sys h = ground arith

-- The store has the system `id`, and its status says what its power is.
abbrev pub KeepsCoherent : HardwareStore → String → Type 0
KeepsCoherent s id = (sys : RedfishSystem) × (get_system s id ≡ some sys) × IsCoherent sys

module _ (s : HardwareStore) (other : String) (sys : RedfishSystem)
    (found : get_system s other ≡ some sys) (coherent : IsCoherent sys) where
  -- A write to `id` of a system that `f` makes of the one that is there.
  put-KeepsCoherent :
      (f : RedfishSystem → RedfishSystem) (id : String) (old : RedfishSystem)
      → (IsCoherent sys → IsCoherent (f sys))
      → get_system s id ≡ some old
      → KeepsCoherent (record { systems = insert id (f old) s.systems }) other
  unfolding get_system
  put-KeepsCoherent f id old k there = elim (Eq-cases id other) [
    | inl same ↦ (
      f old,
      ap (λ i. lookup other (insert i (f old) s.systems)) same
          ∙ lookup-insert_self other (f old) s.systems,
      subst (λ (x : RedfishSystem). IsCoherent (f x))
          (some_inj (sym found ∙ ap (λ i. lookup i s.systems) (sym same) ∙ there)) (k coherent),
    )
    | inr ne ↦ (sys, lookup-insert_ne id other (f old) s.systems ne ∙ found, coherent)
  ]

  -- If the status of some system says what its power is, this stays so under every reset, of a type
  -- that the simulator knows or not, and every change of a boot override, of that system or
  -- another.
  pub operations-KeepsCoherent :
      (id reset_type : String) (boot : SystemBoot)
      → KeepsCoherent (reset_system id reset_type s).0 other
        × KeepsCoherent (update_system_boot id boot s).0 other
  unfolding get_system reset_system update_system_boot
  operations-KeepsCoherent id reset_type boot = elim (Option-cases (lookup id s.systems)) [
    | inl absent ↦ (
      rw (absent, reset_system) (sys, found, coherent),
      rw (absent, update_system_boot) (sys, found, coherent),
    )
    | inr (old, there) ↦ (
      rw (there, reset_system)
          (put-KeepsCoherent (apply_reset reset_type) id old (apply_reset-IsCoherent reset_type sys)
            there),
      rw (there, update_system_boot)
          (put-KeepsCoherent (λ x. record x { boot = merge_boot boot x.boot }) id old (λ h. h)
            there),
    )
  ]
