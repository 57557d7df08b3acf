-- ===== src/Slurm/Handlers.antt =====
-- The HTTP handlers (slurm-simulator/handlers.go). A request reaches them routed by `net/http` and
-- decoded by `encoding/json`: the path values, the token header and the decoded body are arguments,
-- `none` for a body that does not decode. A response is a status and the value that is encoded.
pub mod Api
pub mod Validation
pub mod Contract
use velo_infra_playground.Prelude.{
  String, [], ◌∷◌, Option, none, some, if◌then◌else◌, ◌==◌, string_Eq,
}
use velo_infra_playground.Prelude.Int.{ℤ}
use velo_infra_playground.Prelude.Text.{parse_int, show_int, concat}
use velo_infra_playground.Slurm.Types.{ClusterStore}
use velo_infra_playground.Slurm.Store
use Api.{SlurmSubmitJobReq, Body, Response, Route, no_errors, one_error}
use Validation.{
  resolve_gpus, resolve_cpus, resolve_duration, resolve_memory, resolve_partition, resolve_name,
}

-- A handler, once its request is taken apart.
abbrev pub Handler : Type 0
Handler = ClusterStore → ClusterStore × Response

unfoldable pub auth_middleware : String → Handler → Handler
auth_middleware token next s =
    if token == ""
    then (
      s,
      record {
        status = 401;
        body = Body.header (record {
          errors =
              record {
                error_no = 401;
                error_msg =
                    "Unauthorized: Missing authentication token in 'X-SLURM-USER-TOKEN' header";
              }
              ∷ [];
          warnings = some [];
        });
      },
    )
    else next s

bad_id : Response
bad_id = record { status = 400; body = Body.header (one_error 400 "Invalid job ID format") }

not_found : ℤ → Response
not_found id = record {
  status = 404;
  body = Body.header (one_error 404 (concat ("Job " ∷ show_int id ∷ " not found" ∷ [])));
}

unfoldable pub get_job : String → Handler
unfolding bad_id not_found
get_job text s = elim (parse_int text) [
  | none ↦ (s, bad_id)
  | some id ↦ elim (Store.get_job s id) [
    | none ↦ (s, not_found id)
    | some job ↦ (s, record { status = 200; body = Body.jobs no_errors (job ∷ []) })
  ]
]

unfoldable pub submit_job : ℤ → Option SlurmSubmitJobReq → Handler
submit_job now none s =
    (s, record { status = 400; body = Body.header (one_error 400 "Invalid JSON request body") })
submit_job now (some req) s =
    let (t, job) =
      Store.submit_job s now (resolve_name req) (resolve_partition req) (resolve_cpus req)
        (resolve_gpus req) (resolve_memory req) (resolve_duration req) in
    (
      t,
      record {
        status = 200;
        body = Body.submitted no_errors job.job_id "batch" (
            concat (
              "Job "
              ∷ show_int job.job_id
              ∷ " submitted successfully to partition '"
              ∷ job.partition
              ∷ "'"
              ∷ []));
      },
    )

unfoldable pub cancel_job : ℤ → String → Handler
unfolding bad_id not_found
cancel_job now text s = elim (parse_int text) [
  | none ↦ (s, bad_id)
  | some id ↦
      let (t, answer) = Store.cancel_job now id s in
      elim answer [
        | none ↦ (t, not_found id)
        | some job ↦ (t, record { status = 200; body = Body.header no_errors })
      ]
]

-- The handler that a route is registered with.
unfoldable pub dispatch : ℤ → Route → Handler
dispatch now Route.get_ping s = (s, record { status = 200; body = Body.ping no_errors "pong" })
dispatch now Route.get_nodes s =
    (s, record { status = 200; body = Body.nodes no_errors (Store.get_nodes s) })
dispatch now Route.get_partitions s =
    (s, record { status = 200; body = Body.partitions no_errors (Store.get_partitions s) })
dispatch now Route.get_jobs s =
    (s, record { status = 200; body = Body.jobs no_errors (Store.get_jobs s) })
dispatch now (Route.get_job text) s = get_job text s
dispatch now (Route.post_job req) s = submit_job now req s
dispatch now (Route.delete_job text) s = cancel_job now text s

-- Every route is registered behind the token check.
unfoldable pub serve : ℤ → String → Route → Handler
serve now token route s = auth_middleware token (dispatch now route) s
