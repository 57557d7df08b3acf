-- ===== src/Mcp/Handlers.antt =====
-- The tools of the diagnostics server (mcp-server/main.go). A request's arguments come decoded.
pub mod Contract
use velo_infra_playground.Prelude.{ℕ, String, List, Option, none, some, string_Eq}
use velo_infra_playground.Prelude.Int.{ℤ, pos}
use velo_infra_playground.Prelude.Dict.{lookup}
use velo_infra_playground.Mcp.Engine.{
  DiagnosticsEngine, Outcome, list_containers, tail_logs, list_pods,
}

-- An argument. A number is given as the `int` that the handler makes of it: of an `int` itself, of a
-- `float64` the result of Go's conversion `int(v)`, which outside the range of `int` depends on the
-- machine.
pub data Value : Type 0 where
  text : String → Value
  number : ℤ → Value
  other : Value

abbrev pub Arguments : Type 0
Arguments = List (String × Value)

-- `mcp.NewToolResultText` and `mcp.NewToolResultError`.
pub data ToolResult : Type 0 where
  result_text : String → ToolResult
  result_bytes : List ℕ → ToolResult
  result_error : String → ToolResult
  panic : ToolResult

abbrev pub tool_result : Outcome → ToolResult
tool_result (Outcome.answer s) = result_text s
tool_result (Outcome.answer_bytes bs) = result_bytes bs
tool_result (Outcome.error e) = result_error e
tool_result Outcome.panic = ToolResult.panic

unfoldable pub list_containers_handler : DiagnosticsEngine → Arguments → ToolResult
list_containers_handler e args = tool_result (list_containers e)

unfoldable pub lines_argument : Option Value → ℤ
lines_argument none = pos 50
lines_argument (some (text s)) = pos 50
lines_argument (some (number v)) = v
lines_argument (some other) = pos 50

unfoldable pub tail_logs_handler : DiagnosticsEngine → Arguments → ToolResult
unfolding lines_argument
tail_logs_handler e args = elim (lookup "name" args) [
  | none ↦ result_error "missing required argument: name"
  | some (text name) ↦ tool_result (tail_logs e name (lines_argument (lookup "lines" args)))
  | some (number v) ↦ result_error "argument 'name' must be a string"
  | some other ↦ result_error "argument 'name' must be a string"
]

unfoldable pub namespace_argument : Option Value → String
namespace_argument none = "default"
namespace_argument (some (text s)) = s
namespace_argument (some (number v)) = "default"
namespace_argument (some other) = "default"

unfoldable pub verify_pods_handler : DiagnosticsEngine → Arguments → ToolResult
unfolding namespace_argument
verify_pods_handler e args =
    tool_result (list_pods e (namespace_argument (lookup "namespace" args)))
