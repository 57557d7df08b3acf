-- ===== src/Redfish/Handlers/Routes.antt =====
-- The routes of the simulator (redfish-simulator/handlers.go). Which route a request takes is found
-- by `net/http`'s mux, and its body is decoded by `encoding/json`.
use velo_infra_playground.Prelude.{
  ◌≡◌, refl, sym, ap, subst, ◌∙◌, inl, inr, String, List, [], ◌∷◌, Option, some, Option-cases,
  Bool-cases, some_inj, none-ne-some, ◌==◌, string_Eq,
}
use velo_infra_playground.Prelude.Int.{ℤ}
use velo_infra_playground.Prelude.Dict.{Dict, lookup, insert}
use velo_infra_playground.Redfish.Types.{PowerState, SystemBoot, RedfishSystem, HardwareStore}
use velo_infra_playground.Redfish.Store
use velo_infra_playground.Redfish.Store.{apply_reset}
use velo_infra_playground.Redfish.Power.{ResetType}
use velo_infra_playground.Redfish.Handlers
use velo_infra_playground.Redfish.Handlers.{
  Body, Handler, Response, ok, get_systems, get_system, patch_system, reset_system,
  get_chassis_collection, get_chassis, get_thermal, get_power,
}
use velo_infra_playground.Redfish.Handlers.Contract.{
  Known, reset_system-answers, patch_system-answers,
}

unfoldable pub get_service_root : Handler
get_service_root s = (s, ok Body.service_root)

-- The patterns that the mux has a handler for.
pub data Route : Type 0 where
  service_root systems chassis_collection : Route
  system chassis thermal power : String → Route
  patch : String → Option (Option SystemBoot) → Route
  reset : String → Option String → Route

-- The handler of each route, at a time in Unix seconds.
unfoldable pub serve : ℤ → Route → Handler
serve now Route.service_root = get_service_root
serve now Route.systems = get_systems
serve now (Route.system id) = get_system id
serve now (Route.patch id req) = patch_system id req
serve now (Route.reset id req) = reset_system id req
serve now Route.chassis_collection = get_chassis_collection
serve now (Route.chassis id) = get_chassis id
serve now (Route.thermal id) = get_thermal id
serve now (Route.power id) = get_power now id

-- What the requests come to, one after the other, each at its own time.
unfoldable pub serve_all : List (ℤ × Route) → HardwareStore → HardwareStore
serve_all [] s = s
serve_all ((now, route) ∷ requests) s = serve_all requests (serve now route s).0

-- What a system is, apart from its power, its health and its boot override.
abbrev pub inventory : RedfishSystem → List String
inventory sys =
    sys.id ∷ sys.name ∷ sys.system_type ∷ sys.model ∷ sys.manufacturer ∷ sys.serial_number ∷ []

abbrev pub inventories : Dict String RedfishSystem → Dict String (List String)
inventories [] = []
inventories ((id, sys) ∷ d) = (id, inventory sys) ∷ inventories d

inventories-insert :
    (id : String) (new old : RedfishSystem) (d : Dict String RedfishSystem)
    → lookup id d ≡ some old
    → inventory new ≡ inventory old
    → inventories (insert id new d) ≡ inventories d
unfolding lookup insert
inventories-insert id new old [] found same = absurd (none-ne-some found)
inventories-insert id new old ((j, sys) ∷ d) found same = elim (Bool-cases (j == id)) [
  | inl here ↦
      rw here
        (ap (λ i. (j, i) ∷ inventories d) (same ∙ ap inventory (sym (some_inj (rw here at found)))))
  | inr there ↦
      rw there (
        ap (λ r. (j, inventory sys) ∷ r) (inventories-insert id new old d (rw there at found) same))
]

inventory-apply_reset :
    (reset_type : String) (power : PowerState) (sys : RedfishSystem)
    → ResetType reset_type power
    → inventory (apply_reset reset_type sys) ≡ inventory sys
unfolding apply_reset
inventory-apply_reset _ _ sys ResetType.switch_on = refl
inventory-apply_reset _ _ sys ResetType.force_off = refl
inventory-apply_reset _ _ sys ResetType.graceful_shutdown = refl
inventory-apply_reset _ _ sys ResetType.force_restart = refl
inventory-apply_reset _ _ sys ResetType.graceful_restart = refl

inventories-patch_system :
    (id : String) (req : Option (Option SystemBoot)) (s : HardwareStore)
    → inventories (patch_system id req s).0.systems ≡ inventories s.systems
unfolding Store.get_system
inventories-patch_system id req s = elim (patch_system-answers id req s) [
  | inl (boot, sys, merged, _, found, _, _, stored) ↦
      ap (λ (t : HardwareStore). inventories t.systems) stored
      ∙ inventories-insert id (record sys { boot = merged }) sys s.systems found refl
  | inr (inl (_, same, _)) ↦ ap (λ (t : HardwareStore). inventories t.systems) same
  | inr (inr (_, same, _)) ↦ ap (λ (t : HardwareStore). inventories t.systems) same
]

inventories-reset_system :
    (id : String) (req : Option String) (s : HardwareStore)
    → inventories (reset_system id req s).0.systems ≡ inventories s.systems
unfolding Store.get_system
inventories-reset_system id req s = elim (reset_system-answers id req s) [
  | inl (_, type, sys, asked, known, found, stored) ↦
      let (state, resets) = subst Known asked known in
      ap (λ (t : HardwareStore). inventories t.systems) stored
      ∙ inventories-insert id (apply_reset type sys) sys s.systems found
          (inventory-apply_reset type state sys resets)
  | inr (inl (_, same, _)) ↦ ap (λ (t : HardwareStore). inventories t.systems) same
  | inr (inr (_, same, _, _)) ↦ ap (λ (t : HardwareStore). inventories t.systems) same
]

inventories-serve :
    (now : ℤ) (route : Route) (s : HardwareStore)
    → inventories (serve now route s).0.systems ≡ inventories s.systems
unfolding serve get_service_root get_systems get_system get_chassis_collection get_chassis
    get_thermal get_power
inventories-serve now Route.service_root s = refl
inventories-serve now Route.systems s = refl
inventories-serve now Route.chassis_collection s = refl
inventories-serve now (Route.system id) s = elim (Option-cases (Store.get_system s id)) [
  | inl e ↦ rw (e, Handlers.get_system) refl
  | inr (sys, e) ↦ rw (e, Handlers.get_system) refl
]
inventories-serve now (Route.chassis id) s =
    elim (Option-cases (Store.get_system s (Handlers.system_of id))) [
      | inl e ↦ rw (e, Handlers.get_chassis) refl
      | inr (sys, e) ↦ rw (e, Handlers.get_chassis) refl
    ]
inventories-serve now (Route.thermal id) s =
    elim (Option-cases (Store.get_thermal s (Handlers.system_of id))) [
      | inl e ↦ rw (e, Handlers.get_thermal) refl
      | inr (sys, e) ↦ rw (e, Handlers.get_thermal) refl
    ]
inventories-serve now (Route.power id) s =
    elim (Option-cases (Store.get_power now s (Handlers.system_of id))) [
      | inl e ↦ rw (e, Handlers.get_power) refl
      | inr (sys, e) ↦ rw (e, Handlers.get_power) refl
    ]
inventories-serve now (Route.patch id req) s = inventories-patch_system id req s
inventories-serve now (Route.reset id req) s = inventories-reset_system id req s

-- No sequence of requests adds, removes, renames or reorders a system, or changes its id, name, type,
-- model, manufacturer or serial number.
pub inventories-serve_all :
    (requests : List (ℤ × Route)) (s : HardwareStore)
    → inventories (serve_all requests s).systems ≡ inventories s.systems
unfolding serve_all
inventories-serve_all [] s = refl
inventories-serve_all ((now, route) ∷ requests) s =
    inventories-serve_all requests (serve now route s).0 ∙ inventories-serve now route s
