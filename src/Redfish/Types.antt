-- ===== src/Redfish/Types.antt =====
-- The resources that the simulator keeps (redfish-simulator/store.go). The strings that the program
-- itself chooses are data types; those that a client may set are texts. A temperature is in tenths
-- of a degree: the program only stores and shows its float64 constants.
use velo_infra_playground.Prelude.{ℕ, String, List}
use velo_infra_playground.Prelude.Int.{ℤ}
use velo_infra_playground.Prelude.Dict.{Dict}

pub data PowerState : Type 0 where
  on off : PowerState

pub data ResourceState : Type 0 where
  enabled standby_offline : ResourceState

pub data Health : Type 0 where
  good warning critical : Health

pub record SystemBoot : Type 0 where
  pub override_target : String
  pub override_enabled : String
  pub override_mode : String

pub record RedfishStatus : Type 0 where
  pub state : ResourceState
  pub health : Health

pub record RedfishSystem : Type 0 where
  pub id : String
  pub name : String
  pub system_type : String
  pub model : String
  pub manufacturer : String
  pub serial_number : String
  pub power_state : PowerState
  pub status : RedfishStatus
  pub boot : SystemBoot

pub record Fan : Type 0 where
  pub member_id : String
  pub name : String
  pub reading : ℕ
  pub reading_units : String
  pub status : RedfishStatus

pub record Temperature : Type 0 where
  pub member_id : String
  pub name : String
  pub reading_celsius : ℕ
  pub upper_threshold_critical : ℕ
  pub status : RedfishStatus

pub record RedfishThermal : Type 0 where
  pub id : String
  pub name : String
  pub fans : List Fan
  pub temperatures : List Temperature

pub record RedfishPower : Type 0 where
  pub id : String
  pub name : String
  pub power_consumed_watts : ℤ

-- The lock is not a field: each operation runs under it from start to end.
pub record HardwareStore : Type 0 where
  pub systems : Dict String RedfishSystem
