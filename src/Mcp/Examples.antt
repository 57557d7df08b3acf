-- ===== src/Mcp/Examples.antt =====
-- The theorems on a daemon with two containers.
use Prim.Native.Char.{Char}
use velo_infra_playground.Prelude.{
  ◌≡◌, ◌≢◌, ◌⊎◌, ◌↔◌, refl, String, List, [], ◌∷◌, ◌++◌, false, none, some, All, arith, string_Eq,
}
use velo_infra_playground.Prelude.Int.{pos}
use velo_infra_playground.Prelude.Dict.{lookup}
use velo_infra_playground.Prelude.Text.{concat, show_int}
use velo_infra_playground.Mcp.Engine.{
  Container, Docker, Reply, Outcome, DiagnosticsEngine, list_containers,
}
use velo_infra_playground.Mcp.Engine.Logs.{
  Frame, demultiplex, answers_of, joined, padded, demultiplex-answers_of,
}
use velo_infra_playground.Mcp.Engine.Text.{prefix?}
use velo_infra_playground.Mcp.Engine.Search.{HasShort, Fits}
use velo_infra_playground.Mcp.Engine.Panics.{AnyShort, list_containers-panic}
use velo_infra_playground.Mcp.Engine.Contract.{logs_of}
use velo_infra_playground.Mcp.Handlers.{
  Value, Arguments, ToolResult, tool_result, tail_logs_handler, lines_argument,
}
use velo_infra_playground.Mcp.Handlers.Contract.{tail_logs_handler-Fits}

-- "hi\n" on the standard output, and of "!\n" on the standard error only the first byte.
abbrev frames : List Frame
frames =
    record { stream = 1; size = 3; content = 104 ∷ 105 ∷ 10 ∷ [] }
    ∷ record { stream = 2; size = 2; content = 33 ∷ [] }
    ∷ []

demultiplex-answers_of_example : demultiplex (answers_of frames) ≡ joined padded frames
demultiplex-answers_of_example =
    demultiplex-answers_of frames ((omega arith, omega arith), ((omega arith, omega arith), tt))

abbrev triton : Container
triton = record {
  id = "a78f23bc9d1e55";
  names = "/triton" ∷ [];
  image = "triton:24.04";
  status = "Up 4 hours";
  ports = [];
}

abbrev gateway : Container
gateway = record {
  id = "5e8dfd91204a77";
  names = "/gateway" ∷ "/sentinel" ∷ [];
  image = "velo-sentinel:latest";
  status = "Up 4 hours";
  ports = [];
}

abbrev both : List Container
both = triton ∷ gateway ∷ []

not_empty : {c : Char} {s : String} → String.◌∷◌ c s ≢ ""
not_empty e = cc

both-HasShort : All HasShort both
unfolding prefix?
both-HasShort = ((not_empty, "a78f23bc9d1e", refl), ((not_empty, "5e8dfd91204a", refl), tt))

abbrev docker : Docker
docker = record {
  container_list = Reply.reply both;
  container_logs = λ id lines. Reply.reply (answers_of frames);
}

abbrev engine : DiagnosticsEngine
engine = record { force_mock = false; docker = some docker; kube = none }

list_containers-panic_example : (list_containers engine ≡ Outcome.panic) ↔ (
    (false ≡ false)
    × (d : Docker) × (cs : List Container) × (some docker ≡ some d)
    × (d.container_list ≡ Reply.reply cs)
    × AnyShort cs)
list_containers-panic_example = list_containers-panic engine

abbrev request : Arguments
request = ("name", Value.text "sentinel") ∷ ("lines", Value.number (pos 10)) ∷ []

request_name : lookup "name" request ≡ some (Value.text "sentinel")
unfolding lookup
request_name = refl

tail_logs_handler-Fits_example :
    ((before : List Container) × (c : Container) × (after : List Container) × (both
        ≡ before ++ (c ∷ after))
      × All (λ b. ¬ Fits "sentinel" b) before
      × Fits "sentinel" c
      × (tail_logs_handler engine request
          ≡ tool_result (
              logs_of
                (docker.container_logs c.id (show_int (lines_argument (lookup "lines" request)))))))
    ⊎ (All (λ b. ¬ Fits "sentinel" b) both
        × (tail_logs_handler engine request
            ≡ ToolResult.result_error (concat ("container '" ∷ "sentinel" ∷ "' not found" ∷ []))))
tail_logs_handler-Fits_example =
    tail_logs_handler-Fits engine docker both request "sentinel" refl refl refl both-HasShort
      request_name
