-- ===== src/Redfish/Handlers.antt =====
-- The HTTP handlers (redfish-simulator/handlers.go). A request reaches them routed by `net/http`
-- and decoded by `encoding/json`: `none` stands for a body that does not decode. Of a response the
-- model keeps the status and the values that depend on the request or the store.
pub mod Contract
pub mod Chassis
pub mod Routes
use velo_infra_playground.Prelude.{
  ℕ, String, List, [], ◌∷◌, map, length, Bool, not, ◌||◌, Option, none, some, if◌then◌else◌, ◌==◌,
  string_Eq,
}
use velo_infra_playground.Prelude.Int.{ℤ}
use velo_infra_playground.Prelude.Dict.{keys}
use velo_infra_playground.Prelude.Text.{concat, replace_first}
use velo_infra_playground.Redfish.Types.{
  SystemBoot, RedfishSystem, RedfishThermal, RedfishPower, HardwareStore,
}
use velo_infra_playground.Redfish.Store

pub data Body : Type 0 where
  empty : Body
  failure : String → String → Body
  service_root : Body
  members : ℕ → List String → Body
  system : String → RedfishSystem → String → Body
  patched : RedfishSystem → Body
  chassis : String → RedfishSystem → Body
  thermal : String → RedfishThermal → Body
  power : String → RedfishPower → Body

pub record Response : Type 0 where
  pub status : ℕ
  pub body : Body

abbrev pub Handler : Type 0
Handler = HardwareStore → HardwareStore × Response

abbrev pub ok : Body → Response
ok body = record { status = 200; body = body }

abbrev pub not_found : List String → Response
not_found message = record {
  status = 404;
  body = Body.failure "Base.1.0.ResourceNotFound" (concat message);
}

abbrev pub bad_request : String → String → Response
bad_request code message = record { status = 400; body = Body.failure code message }

unfoldable pub get_systems : Handler
get_systems s =
    let links = map (λ id. concat ("/redfish/v1/Systems/" ∷ id ∷ [])) (keys s.systems) in
    (s, ok (Body.members (length links) links))

unfoldable pub get_system : String → Handler
get_system id s = elim (Store.get_system s id) [
  | none ↦ (s, not_found ("System " ∷ id ∷ " not found" ∷ []))
  | some sys ↦ (
    s,
    ok (
        Body.system (concat ("/redfish/v1/Systems/" ∷ id ∷ [])) sys
          (concat ("/redfish/v1/Systems/" ∷ id ∷ "/Actions/System.Reset" ∷ []))),
  )
]

-- The decoded body of a PATCH: its `Boot`, which may be missing.
unfoldable pub patch_system : String → Option (Option SystemBoot) → Handler
patch_system id none s = (s, bad_request "Base.1.0.MalformedJSON" "Malformed request body")
patch_system id (some none) s =
    (s, bad_request "Base.1.0.PropertyMissing" "Patch request must specify fields, e.g. 'Boot'")
patch_system id (some (some boot)) s =
    let (t, answer) = Store.update_system_boot id boot s in
    elim answer [
      | none ↦ (t, not_found ("System " ∷ id ∷ " not found" ∷ []))
      | some sys ↦ (t, ok (Body.patched sys))
    ]

unfoldable pub valid_type : String → Bool
valid_type reset_type =
    reset_type == "On"
    || (reset_type == "ForceOff"
        || (reset_type == "GracefulShutdown"
            || (reset_type == "GracefulRestart" || reset_type == "ForceRestart")))

-- The decoded body of a reset: its `ResetType`.
unfoldable pub reset_system : String → Option String → Handler
reset_system id none s = (s, bad_request "Base.1.0.MalformedJSON" "Malformed request body")
reset_system id (some reset_type) s =
    if not (valid_type reset_type)
    then (
      s,
      bad_request "Base.1.0.PropertyValueNotInList" (
          concat (
            "ResetType '" ∷ reset_type
            ∷ "' not supported. Use: On, ForceOff, GracefulShutdown, GracefulRestart, ForceRestart"
            ∷ [])),
    )
    else (let (t, answer) = Store.reset_system id reset_type s in
        elim answer [
          | none ↦ (t, not_found ("System " ∷ id ∷ " not found" ∷ []))
          | some sys ↦ (t, record { status = 204; body = Body.empty })
        ])

-- The chassis of a system, and the system of a chassis, by name.
unfoldable pub chassis_of : String → String
chassis_of id = replace_first id "system" "chassis"

unfoldable pub system_of : String → String
system_of chassis_id = replace_first chassis_id "chassis" "system"

unfoldable pub get_chassis_collection : Handler
get_chassis_collection s =
    let links = map (λ id. concat ("/redfish/v1/Chassis/" ∷ chassis_of id ∷ [])) (keys s.systems) in
    (s, ok (Body.members (length links) links))

unfoldable pub get_chassis : String → Handler
get_chassis chassis_id s = elim (Store.get_system s (system_of chassis_id)) [
  | none ↦ (s, not_found ("Chassis " ∷ chassis_id ∷ " not found" ∷ []))
  | some sys ↦ (s, ok (Body.chassis chassis_id sys))
]

unfoldable pub get_thermal : String → Handler
get_thermal chassis_id s = elim (Store.get_thermal s (system_of chassis_id)) [
  | none ↦ (s, not_found ("Chassis thermal sensors for " ∷ chassis_id ∷ " not found" ∷ []))
  | some readings ↦ (s, ok (Body.thermal chassis_id readings))
]

unfoldable pub get_power : ℤ → String → Handler
get_power now chassis_id s = elim (Store.get_power now s (system_of chassis_id)) [
  | none ↦ (s, not_found ("Chassis power control for " ∷ chassis_id ∷ " not found" ∷ []))
  | some reading ↦ (s, ok (Body.power chassis_id reading))
]
