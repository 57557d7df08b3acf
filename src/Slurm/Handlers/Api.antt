-- ===== src/Slurm/Handlers/Api.antt =====
-- The request and response types (slurm-simulator/store.go), and the routes.
use velo_infra_playground.Prelude.{ℕ, String, List, [], ◌∷◌, Option, none, some}
use velo_infra_playground.Prelude.Int.{ℤ}
use velo_infra_playground.Slurm.Types.{SlurmNode, SlurmPartition, SlurmJob, NumberObject}

pub record SlurmError : Type 0 where
  pub error_no : ℕ
  pub error_msg : String

-- `none` is Go's nil slice, which is encoded as `null` and not as an empty list.
pub record SlurmResponseHeader : Type 0 where
  pub errors : List SlurmError
  pub warnings : Option (List String)

-- The fields of `SlurmSubmitJobReq` and of its `job` that the handler reads.
pub record SlurmSubmitJobReq : Type 0 where
  pub script : String
  pub name : String
  pub partition : String
  pub tasks : ℤ
  pub cpus_per_task : ℤ
  pub tres_per_node : String
  pub time_limit : ℤ
  pub memory_per_node : NumberObject

-- The value that a handler encodes.
pub data Body : Type 0 where
  header : SlurmResponseHeader → Body
  ping : SlurmResponseHeader → String → Body
  nodes : SlurmResponseHeader → List SlurmNode → Body
  partitions : SlurmResponseHeader → List SlurmPartition → Body
  jobs : SlurmResponseHeader → List SlurmJob → Body
  submitted : SlurmResponseHeader → ℤ → String → String → Body

pub record Response : Type 0 where
  pub status : ℕ
  pub body : Body

-- The routes of `RegisterRoutes`, with what the handler takes from the request.
pub data Route : Type 0 where
  get_ping get_nodes get_partitions get_jobs : Route
  get_job : String → Route
  post_job : Option SlurmSubmitJobReq → Route
  delete_job : String → Route

-- The header of a response with no error.
abbrev pub no_errors : SlurmResponseHeader
no_errors = record { errors = []; warnings = some [] }

-- The header of a response with one error, its warnings left nil.
abbrev pub one_error : ℕ → String → SlurmResponseHeader
one_error n message = record {
  errors = record { error_no = n; error_msg = message } ∷ [];
  warnings = none;
}
