-- ===== src/Redfish/Physics.antt =====
-- The readings of a system after a power action.
use velo_infra_playground.Prelude.{
  ℕ, ◌≡◌, ◌≤◌, ◌<◌, ◌%◌, refl, String, All, some, arith, ◌==◌, string_Eq, Bool-cases, inl, inr,
  if◌then◌else◌,
}
use velo_infra_playground.Prelude.Int.{pos, ◌≤ℤ◌, rem}
use velo_infra_playground.Prelude.Words.{add64-pos}
use velo_infra_playground.Prelude.Dict.{lookup-insert_self}
use velo_infra_playground.Redfish.Types.{
  PowerState, RedfishSystem, RedfishThermal, RedfishPower, HardwareStore,
}
use velo_infra_playground.Redfish.Store.{
  apply_reset, reset_system, get_system, thermal_of, watts_of, get_thermal, get_power,
}
use velo_infra_playground.Redfish.Power.{ResetType, apply_reset-power}

-- Readings that fit a power state. Off: no fan turns, no sensor is above 22.0 degrees, and 15 watts
-- are drawn. On: every fan turns, every sensor is below its critical threshold, and the draw is
-- between 350 and 714 watts.
abbrev pub Fits : PowerState → RedfishThermal → RedfishPower → Type 0
Fits PowerState.off thermal power =
    All (λ fan. fan.reading ≡ 0) thermal.fans
    × All (λ sensor. sensor.reading_celsius ≤ 220) thermal.temperatures
    × (power.power_consumed_watts ≡ pos 15)
Fits PowerState.on thermal power =
    All (λ fan. 0 < fan.reading) thermal.fans
    × All (λ sensor. sensor.reading_celsius < sensor.upper_threshold_critical) thermal.temperatures
    × ((pos 350 ≤ℤ power.power_consumed_watts) × (power.power_consumed_watts ≤ℤ pos 714))

watts_of-on :
    (seconds : ℕ) (model : String)
    → (pos 350 ≤ℤ watts_of (pos seconds) PowerState.on model)
      × (watts_of (pos seconds) PowerState.on model ≤ℤ pos 714)
unfolding watts_of rem
watts_of-on seconds model = elim (Bool-cases (model == "DGX H100")) [
  | inl p ↦ rw p (ground (arith, add64-pos 700 (seconds % 15)))
  | inr p ↦ rw p (ground (arith, add64-pos 350 (seconds % 15)))
]

gpu_below : (model : String) → (if model == "DGX H100" then 582 else 550) < 850
gpu_below model = elim (Bool-cases (model == "DGX H100")) [
  | inl p ↦ rw p (omega arith)
  | inr p ↦ rw p (omega arith)
]

readings-Fits :
    (power : PowerState) (model : String) (seconds : ℕ)
    → Fits power (thermal_of power model) (record {
      id = "power-1";
      name = "Chassis Power Control";
      power_consumed_watts = watts_of (pos seconds) power model;
    })
unfolding thermal_of watts_of
readings-Fits PowerState.off model seconds =
    ((refl, (refl, (refl, tt))), (omega arith, (omega arith, tt)), refl)
readings-Fits PowerState.on model seconds = (
  (omega arith, (omega arith, (omega arith, tt))),
  (omega arith, (gpu_below model, tt)),
  watts_of-on seconds model,
)

-- Once a known system has been reset with a known type, its readings, at any time from 1970 on, fit
-- the power that the type asks for.
pub reset_system-Fits :
    (s : HardwareStore) (id reset_type : String) (power : PowerState) (sys : RedfishSystem)
    (seconds : ℕ)
    → ResetType reset_type power
    → get_system s id ≡ some sys
    → let t = (reset_system id reset_type s).0 in
      (thermal : RedfishThermal) × (watts : RedfishPower) × (get_thermal t id ≡ some thermal)
      × (get_power (pos seconds) t id ≡ some watts)
      × Fits power thermal watts
unfolding reset_system get_system get_thermal get_power
reset_system-Fits s id reset_type power sys seconds known found =
    let (p, _) = apply_reset-power reset_type power sys known in
    let new = apply_reset reset_type sys in
    rw (found, reset_system, get_thermal, get_power, lookup-insert_self)
      (
        thermal_of new.power_state new.model,
        record {
          id = "power-1";
          name = "Chassis Power Control";
          power_consumed_watts = watts_of (pos seconds) new.power_state new.model;
        },
        refl,
        refl,
        rw p (readings-Fits power new.model seconds),
      )
