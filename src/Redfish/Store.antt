-- ===== src/Redfish/Store.antt =====
-- The operations of `HardwareStore` (redfish-simulator/store.go). `none` is the second result
-- `false`, that there is no such system.
use velo_infra_playground.Prelude.{
  ℕ, String, [], ◌∷◌, ◌||◌, Option, none, some, if◌then◌else◌, ◌==◌, string_Eq,
}
use velo_infra_playground.Prelude.Int.{ℤ, pos, rem}
use velo_infra_playground.Prelude.Words.{add64}
use velo_infra_playground.Prelude.Dict.{lookup, insert}
use velo_infra_playground.Redfish.Types.{
  PowerState, ResourceState, Health, SystemBoot, RedfishStatus, RedfishSystem, Fan, Temperature,
  RedfishThermal, RedfishPower, HardwareStore,
}

abbrev pub healthy : ResourceState → RedfishStatus
healthy state = record { state = state; health = Health.good }

abbrev no_override : SystemBoot
no_override = record {
  override_target = "None";
  override_enabled = "Disabled";
  override_mode = "UEFI";
}

unfoldable pub new_hardware_store : HardwareStore
new_hardware_store = record {
  systems =
      (
        "system-1",
        record {
          id = "system-1";
          name = "DGX-H100-Server-01";
          system_type = "Physical";
          model = "DGX H100";
          manufacturer = "NVIDIA";
          serial_number = "NVSH100DGX0001";
          power_state = PowerState.on;
          status = healthy ResourceState.enabled;
          boot = no_override;
        },
      )
      ∷ (
        "system-2",
        record {
          id = "system-2";
          name = "DGX-A100-Server-02";
          system_type = "Physical";
          model = "DGX A100";
          manufacturer = "NVIDIA";
          serial_number = "NVSHA100DGX0002";
          power_state = PowerState.off;
          status = healthy ResourceState.enabled;
          boot = no_override;
        },
      )
      ∷ [];
}

unfoldable pub get_system : HardwareStore → String → Option RedfishSystem
get_system s id = lookup id s.systems

-- `if new != "" { old = new }`.
abbrev pub or_keep : String → String → String
or_keep new old = if new == "" then old else new

unfoldable pub merge_boot : SystemBoot → SystemBoot → SystemBoot
merge_boot boot old = record {
  override_target = or_keep boot.override_target old.override_target;
  override_enabled = or_keep boot.override_enabled old.override_enabled;
  override_mode = or_keep boot.override_mode old.override_mode;
}

-- Writes the system back, as the program does through its pointer, and answers with it.
abbrev pub put_system :
    String → RedfishSystem → HardwareStore → HardwareStore × Option RedfishSystem
put_system id sys s = (record { systems = insert id sys s.systems }, some sys)

unfoldable pub update_system_boot :
    String → SystemBoot → HardwareStore → HardwareStore × Option RedfishSystem
update_system_boot id boot s = elim (lookup id s.systems) [
  | none ↦ (s, none)
  | some sys ↦ put_system id (record sys { boot = merge_boot boot sys.boot }) s
]

set_power : PowerState → ResourceState → RedfishSystem → RedfishSystem
set_power power state sys = record sys {
  power_state = power;
  status = record (sys.status) { state = state };
}

-- A boot override that was set for one boot is used up.
consume_once : SystemBoot → SystemBoot
consume_once boot =
    if boot.override_enabled == "Once" then record boot { override_enabled = "Disabled" } else boot

-- The `switch` of `ResetSystem`; a reset of any other type changes nothing.
unfoldable pub apply_reset : String → RedfishSystem → RedfishSystem
unfolding set_power consume_once
apply_reset reset_type sys =
    if reset_type == "On"
    then set_power PowerState.on ResourceState.enabled sys
    else if reset_type == "ForceOff" || reset_type == "GracefulShutdown"
    then set_power PowerState.off ResourceState.standby_offline sys
    else if reset_type == "ForceRestart" || reset_type == "GracefulRestart"
    then record (set_power PowerState.on ResourceState.enabled sys) { boot = consume_once sys.boot }
    else sys

unfoldable pub reset_system : String → String → HardwareStore → HardwareStore × Option RedfishSystem
reset_system id reset_type s = elim (lookup id s.systems) [
  | none ↦ (s, none)
  | some sys ↦ put_system id (apply_reset reset_type sys) s
]

fan : String → String → ℕ → ResourceState → Fan
fan member_id name reading state = record {
  member_id = member_id;
  name = name;
  reading = reading;
  reading_units = "RPM";
  status = healthy state;
}

sensor : String → String → ℕ → ℕ → ResourceState → Temperature
sensor member_id name reading threshold state = record {
  member_id = member_id;
  name = name;
  reading_celsius = reading;
  upper_threshold_critical = threshold;
  status = healthy state;
}

-- The readings of the board, by power state and model.
unfoldable pub thermal_of : PowerState → String → RedfishThermal
unfolding fan sensor
thermal_of PowerState.on model = record {
  id = "thermal-1";
  name = "Chassis Thermal Status";
  fans =
      fan "fan-1" "Front Fan 1" 5400 ResourceState.enabled
      ∷ fan "fan-2" "Front Fan 2" 5350 ResourceState.enabled
      ∷ fan "fan-3" "Rear Fan 1" 6100 ResourceState.enabled
      ∷ [];
  temperatures =
      sensor "temp-1" "CPU 1 Temp" 425 900 ResourceState.enabled
      ∷ sensor "temp-2" "GPU Board Temp" (if model == "DGX H100" then 582 else 550) 850
          ResourceState.enabled
      ∷ [];
}
thermal_of PowerState.off model = record {
  id = "thermal-1";
  name = "Chassis Thermal Status";
  fans =
      fan "fan-1" "Front Fan 1" 0 ResourceState.standby_offline
      ∷ fan "fan-2" "Front Fan 2" 0 ResourceState.standby_offline
      ∷ fan "fan-3" "Rear Fan 1" 0 ResourceState.standby_offline
      ∷ [];
  temperatures =
      sensor "temp-1" "CPU 1 Temp" 220 900 ResourceState.standby_offline
      ∷ sensor "temp-2" "GPU Board Temp" 215 850 ResourceState.standby_offline
      ∷ [];
}

unfoldable pub get_thermal : HardwareStore → String → Option RedfishThermal
get_thermal s id = elim (lookup id s.systems) [
  | none ↦ none
  | some sys ↦ some (thermal_of sys.power_state sys.model)
]

unfoldable pub watts_of : ℤ → PowerState → String → ℤ
watts_of now PowerState.on model =
    add64 (if model == "DGX H100" then pos 700 else pos 350) (rem now (pos 15))
watts_of now PowerState.off model = pos 15

unfoldable pub get_power : ℤ → HardwareStore → String → Option RedfishPower
get_power now s id = elim (lookup id s.systems) [
  | none ↦ none
  | some sys ↦ some (record {
    id = "power-1";
    name = "Chassis Power Control";
    power_consumed_watts = watts_of now sys.power_state sys.model;
  })
]
