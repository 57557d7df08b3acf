-- ===== src/Redfish/Handlers/Chassis.antt =====
-- The names of chassis and systems.
use Prim.Native.String.{String, ◌++◌}
use velo_infra_playground.Prelude.{◌≡◌, refl, ap, ◌∙◌, some}
use velo_infra_playground.Prelude.Int.{ℤ}
use velo_infra_playground.Prelude.Text.Replace.{replace_first-append}
use velo_infra_playground.Redfish.Types.{HardwareStore, RedfishSystem}
use velo_infra_playground.Redfish.Store
use velo_infra_playground.Redfish.Store.{thermal_of, watts_of}
use velo_infra_playground.Redfish.Handlers.{
  chassis_of, system_of, get_chassis, get_thermal, get_power, Body, ok,
}

-- A system whose name begins with "system" has a chassis under the name that the collection lists,
-- and that name leads back to the system.
system_of-chassis_of :
    (rest : String) → system_of (chassis_of ("system" ++ rest)) ≡ "system" ++ rest
unfolding chassis_of system_of
system_of-chassis_of rest =
    ap system_of (replace_first-append "s" "ystem" rest "chassis")
    ∙ replace_first-append "c" "hassis" rest "system"

-- For a system whose name begins with "system", the three chassis pages under the name that the
-- chassis collection lists show the readings of that very system.
pub get_thermal-chassis_of :
    (now : ℤ) (rest : String) (s : HardwareStore) (sys : RedfishSystem)
    → Store.get_system s ("system" ++ rest) ≡ some sys
    → let id = chassis_of ("system" ++ rest) in
      (get_chassis id s ≡ (s, ok (Body.chassis id sys)))
      × (get_thermal id s ≡ (s, ok (Body.thermal id (thermal_of sys.power_state sys.model))))
      × (get_power now id s ≡ (
        s,
        ok (
            Body.power id (record {
              id = "power-1";
              name = "Chassis Power Control";
              power_consumed_watts = watts_of now sys.power_state sys.model;
            })),
      ))
unfolding get_thermal get_power get_chassis Store.get_thermal Store.get_power Store.get_system
get_thermal-chassis_of now rest s sys found = (
  rw (get_chassis, system_of-chassis_of, found) refl,
  rw (get_thermal, system_of-chassis_of, found) refl,
  rw (get_power, system_of-chassis_of, found) refl,
)
