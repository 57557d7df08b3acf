-- ===== src/Redfish/Examples.antt =====
-- The theorems on the two systems that the simulator begins with.
use Prim.Native.String.{◌++◌}
use velo_infra_playground.Prelude.{
  ◌≡◌, ◌⊎◌, refl, String, List, [], ◌∷◌, Option, none, some, string_Eq,
}
use velo_infra_playground.Prelude.Int.{ℤ, pos}
use velo_infra_playground.Prelude.Dict.{lookup, insert}
use velo_infra_playground.Redfish.Types.{
  PowerState, ResourceState, Health, SystemBoot, RedfishSystem, RedfishThermal, RedfishPower,
  HardwareStore,
}
use velo_infra_playground.Redfish.Store
use velo_infra_playground.Redfish.Store.{apply_reset, thermal_of, watts_of}
use velo_infra_playground.Redfish.Handlers
use velo_infra_playground.Redfish.Handlers.{chassis_of, Body, ok}
use velo_infra_playground.Redfish.Handlers.Contract.{
  Known, Merged, reset_system-answers, patch_system-answers,
}
use velo_infra_playground.Redfish.Handlers.Routes.{
  Route, serve_all, inventories, inventories-serve_all,
}
use velo_infra_playground.Redfish.Handlers.Chassis.{get_thermal-chassis_of}
use velo_infra_playground.Redfish.Power.{ResetType, KeepsCoherent, operations-KeepsCoherent}
use velo_infra_playground.Redfish.Physics.{Fits, reset_system-Fits}

abbrev fresh : HardwareStore
fresh = Store.new_hardware_store

abbrev h100 : RedfishSystem
h100 = record {
  id = "system-1";
  name = "DGX-H100-Server-01";
  system_type = "Physical";
  model = "DGX H100";
  manufacturer = "NVIDIA";
  serial_number = "NVSH100DGX0001";
  power_state = PowerState.on;
  status = record { state = ResourceState.enabled; health = Health.good };
  boot = record { override_target = "None"; override_enabled = "Disabled"; override_mode = "UEFI" };
}

h100_there : Store.get_system fresh "system-1" ≡ some h100
unfolding Store.get_system Store.new_hardware_store lookup
h100_there = refl

abbrev pxe_once : SystemBoot
pxe_once = record { override_target = "Pxe"; override_enabled = "Once"; override_mode = "" }

reset_system-answers_example :
    let (t, answer) = Handlers.reset_system "system-1" (some "ForceOff") fresh in
    ((answer.status ≡ 204)
      × (reset_type : String) × (sys : RedfishSystem) × (some "ForceOff" ≡ some reset_type)
      × Known (some "ForceOff")
      × (Store.get_system fresh "system-1" ≡ some sys)
      × (t ≡ record fresh {
        systems = insert "system-1" (apply_reset reset_type sys) fresh.systems;
      }))
    ⊎ ((answer.status ≡ 400) × (t ≡ fresh) × ¬ Known (some "ForceOff"))
    ⊎ ((answer.status ≡ 404)
        × (t ≡ fresh)
        × Known (some "ForceOff")
        × (Store.get_system fresh "system-1" ≡ none))
reset_system-answers_example = reset_system-answers "system-1" (some "ForceOff") fresh

abbrev patch : Option (Option SystemBoot)
patch = some (some pxe_once)

patch_system-answers_example :
    let (t, answer) = Handlers.patch_system "system-1" patch fresh in
    ((boot : SystemBoot) × (sys : RedfishSystem) × (merged : SystemBoot) × (patch
        ≡ some (some boot))
      × (Store.get_system fresh "system-1" ≡ some sys)
      × Merged boot sys.boot merged
      × (answer ≡ record { status = 200; body = Body.patched (record sys { boot = merged }) })
      × (t ≡ record fresh {
        systems = insert "system-1" (record sys { boot = merged }) fresh.systems;
      }))
    ⊎ ((answer.status ≡ 400) × (t ≡ fresh) × ((patch ≡ none) ⊎ (patch ≡ some none)))
    ⊎ ((answer.status ≡ 404) × (t ≡ fresh) × (Store.get_system fresh "system-1" ≡ none))
patch_system-answers_example = patch_system-answers "system-1" patch fresh

operations-KeepsCoherent_example :
    KeepsCoherent (Store.reset_system "system-2" "On" fresh).0 "system-1"
    × KeepsCoherent (Store.update_system_boot "system-2" pxe_once fresh).0 "system-1"
operations-KeepsCoherent_example =
    operations-KeepsCoherent fresh "system-1" h100 h100_there refl "system-2" "On" pxe_once

reset_system-Fits_example :
    let t = (Store.reset_system "system-1" "ForceOff" fresh).0 in
    (thermal : RedfishThermal) × (watts : RedfishPower) × (Store.get_thermal t "system-1"
      ≡ some thermal)
    × (Store.get_power (pos 1000) t "system-1" ≡ some watts)
    × Fits PowerState.off thermal watts
reset_system-Fits_example =
    reset_system-Fits fresh "system-1" "ForceOff" PowerState.off h100 1000 ResetType.force_off
      h100_there

abbrev once_h100 : RedfishSystem
once_h100 = record h100 { boot = pxe_once }

abbrev the_type : String
the_type = "ForceRestart"

get_thermal-chassis_of_example :
    let id = chassis_of ("system" ++ "-1") in
    (Handlers.get_chassis id fresh ≡ (fresh, ok (Body.chassis id h100)))
    × (Handlers.get_thermal id fresh
        ≡ (fresh, ok (Body.thermal id (thermal_of PowerState.on "DGX H100"))))
    × (Handlers.get_power (pos 1000) id fresh ≡ (
      fresh,
      ok (
          Body.power id (record {
            id = "power-1";
            name = "Chassis Power Control";
            power_consumed_watts = watts_of (pos 1000) PowerState.on "DGX H100";
          })),
    ))
get_thermal-chassis_of_example = get_thermal-chassis_of (pos 1000) "-1" fresh h100 h100_there

-- A patch, a reset and a page.
abbrev visits : List (ℤ × Route)
visits =
    (pos 0, Route.patch "system-1" patch)
    ∷ (pos 5, Route.reset "system-1" (some "ForceRestart"))
    ∷ (pos 9, Route.systems)
    ∷ []

inventories-serve_all_example :
    inventories (serve_all visits fresh).systems ≡ inventories fresh.systems
inventories-serve_all_example = inventories-serve_all visits fresh
