-- ===== src/Slurm/Handlers/Contract.antt =====
-- What a client of the HTTP interface may rely on.
use velo_infra_playground.Prelude.{
  ℕ, ◌≡◌, ◌≢◌, refl, sym, ◌⊎◌, inl, inr, String, List, [], ◌∷◌, Option, none, some, arith,
  string_Eq, Option-cases, Eq-cases, beq_ne, subst, suc,
}
use text.Mathlib.TextEquality.{eq_iff}
use velo_infra_playground.Prelude.Int.{ℤ, pos, int_Eq, ltb_ℤ}
use velo_infra_playground.Prelude.Words.{mul64}
use velo_infra_playground.Prelude.Text.{parse_int}
use velo_infra_playground.Slurm.Types.{JobState, SlurmJob, ClusterStore}
use velo_infra_playground.Slurm.Store
use velo_infra_playground.Slurm.Store.{unset, set_to}
use velo_infra_playground.Slurm.Requests.{get_job-submit_job, cancel_job-unknown}
use velo_infra_playground.Slurm.Handlers.{
  auth_middleware, get_job, submit_job, cancel_job, dispatch, serve,
}
use velo_infra_playground.Slurm.Handlers.Api.{SlurmError, SlurmSubmitJobReq, Body, Response, Route}
use velo_infra_playground.Slurm.Handlers.Validation.{
  or_default, or_text, resolve_gpus, resolve_cpus, resolve_duration, resolve_memory,
  resolve_partition, resolve_name,
}

abbrev numbers : List SlurmError → List ℕ
numbers [] = []
numbers (e ∷ es) = e.error_no ∷ numbers es

-- The numbers of the errors that a response carries.
abbrev pub error_numbers : Body → List ℕ
error_numbers (Body.header h) = numbers h.errors
error_numbers (Body.ping h _) = numbers h.errors
error_numbers (Body.nodes h _) = numbers h.errors
error_numbers (Body.partitions h _) = numbers h.errors
error_numbers (Body.jobs h _) = numbers h.errors
error_numbers (Body.submitted h _ _ _) = numbers h.errors

-- Success with no error, or a failure whose one error has the number of the status.
abbrev pub IsConsistent : Response → Type 0
IsConsistent r =
    ((r.status ≡ 200) × (error_numbers r.body ≡ []))
    ⊎ ((r.status ≢ 200) × (error_numbers r.body ≡ r.status ∷ []))

get_job-IsConsistent : (text : String) (s : ClusterStore) → IsConsistent (get_job text s).1
unfolding get_job
get_job-IsConsistent text s = ground arith

submit_job-IsConsistent :
    (now : ℤ) (req : Option SlurmSubmitJobReq) (s : ClusterStore)
    → IsConsistent (submit_job now req s).1
unfolding submit_job
submit_job-IsConsistent now req s = ground arith

cancel_job-IsConsistent :
    (now : ℤ) (text : String) (s : ClusterStore) → IsConsistent (cancel_job now text s).1
unfolding cancel_job
cancel_job-IsConsistent now text s = ground arith

dispatch-IsConsistent :
    (now : ℤ) (route : Route) (s : ClusterStore) → IsConsistent (dispatch now route s).1
unfolding dispatch
dispatch-IsConsistent now Route.get_ping s = ground arith
dispatch-IsConsistent now Route.get_nodes s = ground arith
dispatch-IsConsistent now Route.get_partitions s = ground arith
dispatch-IsConsistent now Route.get_jobs s = ground arith
dispatch-IsConsistent now (Route.get_job text) s = get_job-IsConsistent text s
dispatch-IsConsistent now (Route.post_job req) s = submit_job-IsConsistent now req s
dispatch-IsConsistent now (Route.delete_job text) s = cancel_job-IsConsistent now text s

-- On every route, with or without a token, the status and the errors of the body agree.
pub serve-IsConsistent :
    (now : ℤ) (token : String) (route : Route) (s : ClusterStore)
    → IsConsistent (serve now token route s).1
unfolding serve auth_middleware
serve-IsConsistent now token route s = ground (arith, dispatch-IsConsistent now route s)

-- Past the token check.
serve-token :
    (now : ℤ) (token : String) (route : Route) (s : ClusterStore)
    → token ≢ ""
    → serve now token route s ≡ dispatch now route s
unfolding serve auth_middleware
serve-token now token route s h = rw (beq_ne token "" h)

-- The two requests that write: a submission whose body decodes, and a cancellation of a known job.
pub data Writes (s : ClusterStore) : Route → Type 0 where
  post : (req : SlurmSubmitJobReq) → Writes s (Route.post_job (some req))
  delete :
      (text : String) (id : ℤ) (job : SlurmJob)
      → parse_int text ≡ some id
      → Store.get_job s id ≡ some job
      → Writes s (Route.delete_job text)

delete-Writes :
    (now : ℤ) (text : String) (s : ClusterStore)
    → (Writes s (Route.delete_job text)) ⊎ ((cancel_job now text s).0 ≡ s)
unfolding cancel_job
delete-Writes now text s = elim (Option-cases (parse_int text)) [
  | inl bad ↦ inr (rw (bad, cancel_job))
  | inr (id, good) ↦ elim (Option-cases (Store.get_job s id)) [
    | inl absent ↦ inr (ground (arith, good, cancel_job-unknown now id s absent))
    | inr (job, found) ↦ inl (delete text id job good found)
  ]
]

dispatch-Writes :
    (now : ℤ) (route : Route) (s : ClusterStore) → Writes s route ⊎ ((dispatch now route s).0 ≡ s)
unfolding dispatch submit_job get_job
dispatch-Writes now Route.get_ping s = inr refl
dispatch-Writes now Route.get_nodes s = inr refl
dispatch-Writes now Route.get_partitions s = inr refl
dispatch-Writes now Route.get_jobs s = inr refl
dispatch-Writes now (Route.get_job text) s = inr (ground arith)
dispatch-Writes now (Route.post_job none) s = inr refl
dispatch-Writes now (Route.post_job (some req)) s = inl (post req)
dispatch-Writes now (Route.delete_job text) s = delete-Writes now text s

-- A request changes the store only with a token, and only if it is one of the two that write: a
-- submission whose body decodes, or a cancellation of a job that the store knows.
pub serve-Writes :
    (now : ℤ) (token : String) (route : Route) (s : ClusterStore)
    → ((token ≢ "") × Writes s route) ⊎ ((serve now token route s).0 ≡ s)
unfolding serve auth_middleware
serve-Writes now token route s = elim (Eq-cases token "") [
  | inl blank ↦ inr (subst (λ (t : String). (serve now t route s).0 ≡ s) (sym blank) refl)
  | inr given ↦
      rw (serve-token now token route s given)
        (elim (dispatch-Writes now route s) [ inl w ↦ inl (given, w) | inr same ↦ inr same ])
]

or_default-ne : (x : ℤ) (n : ℕ) → or_default x (pos (suc n)) ≢ pos 0
or_default-ne x n = ground arith

or_text-ne : (x d : String) → d ≢ "" → or_text x d ≢ ""
or_text-ne x d h = elim (Eq-cases x "") [ inl p ↦ rw p h | inr q ↦ rw (beq_ne x "" q) q ]

module _ (now : ℤ) (token : String) (s : ClusterStore) (req : SlurmSubmitJobReq)
    (given : token ≢ "") where
  -- The job that the submission should store: the request's values with the defaults filled in.
  abbrev pub posted : SlurmJob
  posted = record {
    job_id = s.next_job_id;
    name = (resolve_name req);
    job_state = JobState.pending;
    partition = (resolve_partition req);
    node_list = "";
    cpus = (resolve_cpus req);
    gpus = (resolve_gpus req);
    duration = (resolve_duration req);
    start_time = unset;
    end_time = unset;
    submit_time = set_to now;
    memory = record { number = resolve_memory req; is_set = ltb_ℤ (pos 0) (resolve_memory req) };
    gres_alloc_str = "";
  }

  stored :
      Store.get_job (serve now token (Route.post_job (some req)) s).0 s.next_job_id ≡ some posted
  unfolding dispatch submit_job Store.submit_job
  stored =
      rw (serve-token now token (Route.post_job (some req)) s given)
        (get_job-submit_job s now (resolve_name req) (resolve_partition req) (resolve_cpus req)
          (resolve_gpus req) (resolve_memory req) (resolve_duration req) (pos 0)).1

  answered : (serve now token (Route.post_job (some req)) s).1.status ≡ 200
  unfolding dispatch submit_job
  answered = rw (serve-token now token (Route.post_job (some req)) s given)

  -- An authorised submission with a body that decodes is answered with 200, and stores a pending
  -- job under the next number, with no CPUs, duration or memory of zero and no empty partition or name.
  pub serve-post :
      let (t, r) = serve now token (Route.post_job (some req)) s in
      (r.status ≡ 200)
      × ((job : SlurmJob) × (Store.get_job t s.next_job_id ≡ some job)
          × (job.job_state ≡ JobState.pending)
          × (job.cpus ≢ pos 0)
          × (job.duration ≢ pos 0)
          × (job.memory.number ≢ pos 0)
          × (job.partition ≢ "")
          × (job.name ≢ ""))
  unfolding resolve_cpus resolve_duration resolve_memory resolve_partition resolve_name
      Store.submit_job
  serve-post = (
    answered,
    (
      posted,
      stored,
      refl,
      or_default-ne (mul64 req.tasks req.cpus_per_task) 0,
      or_default-ne req.time_limit 14,
      or_default-ne req.memory_per_node.number 3999,
      or_text-ne req.partition "h100-partition" (ground (arith, eq_iff "h100-partition" "")),
      or_text-ne req.name "slurm_mock_job" (ground (arith, eq_iff "slurm_mock_job" "")),
    ),
  )
