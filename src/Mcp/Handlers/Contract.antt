-- ===== src/Mcp/Handlers/Contract.antt =====
-- What the tools answer, from the request to the client and back.
use velo_infra_playground.Prelude.{
  ◌≡◌, ◌⊎◌, refl, ap, subst, inl, inr, String, List, [], ◌∷◌, ◌++◌, Bool, true, false, none, some,
  All, string_Eq, ◌≢◌,
}
use velo_infra_playground.Prelude.Dict.{lookup}
use velo_infra_playground.Prelude.Text.{concat, show_int}
use velo_infra_playground.Mcp.Engine.{
  DiagnosticsEngine, Docker, Kube, Probe, client_of, Reply, Container, new_diagnostics_engine,
  list_containers, tail_logs, list_pods,
}
use velo_infra_playground.Mcp.Engine.Mocks.{mock_list_containers, mock_tail_logs, mock_list_pods}
use velo_infra_playground.Mcp.Engine.Search.{HasShort, Fits, find_container-Fits}
use velo_infra_playground.Mcp.Engine.Contract.{tail_logs-missing, tail_logs-found, logs_of}
use velo_infra_playground.Mcp.Handlers.{
  Value, Arguments, ToolResult, tool_result, list_containers_handler, tail_logs_handler,
  lines_argument, verify_pods_handler, namespace_argument,
}

-- With a Docker client that lists containers whose ids have a short form, a request for the logs of
-- a name is answered with the outcome of the client's logs, for the number of lines in the request,
-- of the first container that the name fits; or, if there is none, with the error that says so.
pub tail_logs_handler-Fits :
    (e : DiagnosticsEngine) (docker : Docker) (containers : List Container) (args : Arguments)
    (name : String)
    → e.force_mock ≡ false
    → e.docker ≡ some docker
    → docker.container_list ≡ Reply.reply containers
    → All HasShort containers
    → lookup "name" args ≡ some (Value.text name)
    → ((before : List Container) × (c : Container) × (after : List Container) × (containers
          ≡ before ++ (c ∷ after))
        × All (λ b. ¬ Fits name b) before
        × Fits name c
        × (tail_logs_handler e args
            ≡ tool_result (
                logs_of
                  (docker.container_logs c.id (show_int (lines_argument (lookup "lines" args)))))))
      ⊎ (All (λ b. ¬ Fits name b) containers
          × (tail_logs_handler e args
              ≡ ToolResult.result_error (concat ("container '" ∷ name ∷ "' not found" ∷ []))))
unfolding tail_logs_handler
tail_logs_handler-Fits e docker containers args name live found listed ids named =
    elim (find_container-Fits name containers ids) [
      | inl (before, c, after, split, others, fits, at_c) ↦ inl (
        before,
        c,
        after,
        split,
        others,
        fits,
        rw (named, tail_logs_handler)
            (ap tool_result (
              tail_logs-found e docker containers live found listed name _ c.id
                (full before c after (subst (All HasShort) split ids)) at_c)),
      )
      | inr (others, missing) ↦ inr (
        others,
        rw (named, tail_logs_handler)
            (ap tool_result
              (tail_logs-missing e docker containers live found listed name _ missing)),
      )
    ]
  where
    full :
        (before : List Container) (c : Container) (after : List Container)
        → All HasShort (before ++ (c ∷ after))
        → c.id ≢ ""
    full [] c after h = h.0.0
    full (b ∷ before) c after h = full before c after h.1

-- An engine that is made with the mock flag, or that finds neither daemon, answers every tool from
-- the mocks, and as long as a request for logs has its name, with no error.
pub new_diagnostics_engine-mock :
    (force : Bool) (docker : Probe Docker) (kube : Probe Kube) (args : Arguments) (name : String)
    → (force ≡ true) ⊎ ((client_of docker ≡ none) × (client_of kube ≡ none))
    → lookup "name" args ≡ some (Value.text name)
    → let e = new_diagnostics_engine force docker kube in
      (list_containers_handler e args ≡ ToolResult.result_text mock_list_containers)
      × (tail_logs_handler e args
          ≡ ToolResult.result_text (mock_tail_logs name (lines_argument (lookup "lines" args))))
      × (verify_pods_handler e args
          ≡ ToolResult.result_text (mock_list_pods (namespace_argument (lookup "namespace" args))))
unfolding new_diagnostics_engine list_containers_handler tail_logs_handler verify_pods_handler
    list_containers tail_logs list_pods
new_diagnostics_engine-mock force docker kube args name (inl p) named =
    (rw p refl, rw (named, tail_logs_handler) (rw p refl), rw p refl)
new_diagnostics_engine-mock true docker kube args name (inr (d, k)) named =
    (refl, rw (named, tail_logs_handler) refl, refl)
new_diagnostics_engine-mock false docker kube args name (inr (d, k)) named = (
  rw (d, list_containers) refl,
  rw (named, tail_logs_handler) (rw (d, tail_logs) refl),
  rw (k, list_pods) refl,
)
