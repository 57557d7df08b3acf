-- ===== src/Mcp/Engine/Contract.antt =====
-- The ways of the engine's queries: to a client, or to the mocks.
use velo_infra_playground.Prelude.{◌≡◌, ◌≢◌, refl, String, List, [], ◌∷◌, false, some, string_Eq}
use velo_infra_playground.Prelude.Int.{ℤ}
use velo_infra_playground.Prelude.Text.{concat, show_int}
use velo_infra_playground.Mcp.Engine.{
  DiagnosticsEngine, Docker, Reply, Container, Outcome, find_container, tail_logs, live_tail_logs,
}
use velo_infra_playground.Mcp.Engine.Text.{not_empty_false}
use velo_infra_playground.Mcp.Engine.Logs.{Answer, demultiplex}

-- What becomes of the client's answer to a request for the logs of an id.
abbrev pub logs_of : Reply (List Answer) → Outcome
logs_of (Reply.failure m) = Outcome.error (concat ("failed to retrieve container logs: " ∷ m ∷ []))
logs_of (Reply.reply answers) = Outcome.answer_bytes (demultiplex answers)

module _ (e : DiagnosticsEngine) (docker : Docker) (containers : List Container)
    (live : e.force_mock ≡ false) (found : e.docker ≡ some docker)
    (listed : docker.container_list ≡ Reply.reply containers) (name : String) (lines : ℤ) where
  pub tail_logs-missing :
      find_container name containers ≡ some ""
      → tail_logs e name lines ≡ Outcome.error (concat ("container '" ∷ name ∷ "' not found" ∷ []))
  unfolding tail_logs live_tail_logs
  tail_logs-missing h = rw (live, tail_logs) (rw (found, live_tail_logs, listed) (rw h refl))

  pub tail_logs-found :
      (id : String)
      → id ≢ ""
      → find_container name containers ≡ some id
      → tail_logs e name lines ≡ logs_of (docker.container_logs id (show_int lines))
  unfolding tail_logs live_tail_logs
  tail_logs-found id full h =
      rw (live, tail_logs)
        (rw (found, live_tail_logs, listed)
          (rw h (rw (not_empty_false full) (either (docker.container_logs id (show_int lines))))))
    where
      either :
          (r : Reply (List Answer))
          → elim r as (λ _. Outcome) [
            | Reply.failure m ↦
                Outcome.error (concat ("failed to retrieve container logs: " ∷ m ∷ []))
            | Reply.reply answers ↦ Outcome.answer_bytes (demultiplex answers)
          ]
            ≡ logs_of r
      either (Reply.failure m) = refl
      either (Reply.reply answers) = refl
