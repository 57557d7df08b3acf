-- ===== src/Operator/Reconciler.antt =====
-- `Reconcile` (k8s-operator/internal/controller/sentineldeployment_controller.go), over the API
-- server of the section. `now` and `later` are the clock's readings when the queue depth is asked
-- for and when a scaling is noted; log lines are left out.
pub mod Contract
use velo_infra_playground.Prelude.{
  ℕ, String, Bool, true, false, not, ◌||◌, Option, none, some, if◌then◌else◌,
}
use velo_infra_playground.Prelude.Int.{ℤ, pos, int_eq}
use velo_infra_playground.Operator.Types.{
  SentinelDeployment, SentinelDeploymentStatus, ObjectKey, Fetched, Updated, Cluster,
}
use velo_infra_playground.Operator.Scaling.{
  min_replicas_of, max_replicas_of, threshold_of, target_replicas, queue_depth_or_zero,
}

-- `ctrl.Result` with the error: seconds until the next round, and what went wrong.
pub record Result (E : Type 0) : Type 0 where
  pub requeue_after : Option ℕ
  pub failure : Option E

module _ {E : Type 0} where
  abbrev pub stop : Result E
  stop = record { requeue_after = none; failure = none }

  abbrev pub fail : E → Result E
  fail e = record { requeue_after = none; failure = some e }

  -- The next round, ten seconds from now.
  abbrev pub again : Result E
  again = record { requeue_after = some 10; failure = none }

module _ (c : Cluster) where
  -- `*targetDep.Spec.Replicas`, or 1 where the pointer is nil.
  unfoldable pub current_replicas : c.Deployment → ℤ
  current_replicas d = elim (c.replicas d) [ none ↦ pos 1 | some n ↦ n ]

  unfoldable pub next_status :
      ℤ → ℤ → ℤ → Bool → SentinelDeploymentStatus → SentinelDeploymentStatus
  next_status later queue current scaled status = record {
    replicas = current;
    active_queue_depth = queue;
    last_scale_time = if scaled then some later else status.last_scale_time;
  }

  -- Step 6: the status is written if it has changed or a scaling is to be noted.
  unfoldable pub status_step :
      ℤ → SentinelDeployment → ℤ → ℤ → Bool → c.World → c.World × Result c.Failure
  unfolding next_status
  status_step later sd queue current scaled w =
      if not (int_eq sd.status.replicas current)
        || (not (int_eq sd.status.active_queue_depth queue) || scaled)
      then (let (w', failure) =
            c.update_status w
              (record sd { status = next_status later queue current scaled sd.status }) in
          elim failure [ none ↦ (w', again) | some e ↦ (w', fail e) ])
      else (w, again)

  -- Step 5, for a deployment that is there.
  unfoldable pub scale_step :
      ℤ → SentinelDeployment → ℤ → ℤ → c.Deployment → c.World → c.World × Result c.Failure
  scale_step later sd queue target d w =
      if int_eq (current_replicas d) target
      then status_step later sd queue (c.status_replicas d) false w
      else (let (w', outcome) = c.update_deployment w (c.set_replicas target d) in
          elim outcome [
            | Updated.rejected e ↦ (w', fail e)
            | Updated.stored d' ↦ status_step later sd queue (c.status_replicas d') true w'
          ])

  abbrev pub target_key : ObjectKey → SentinelDeployment → ObjectKey
  target_key req sd = record { namespace = req.namespace; name = sd.spec.target_deployment }

  abbrev pub target_of : SentinelDeployment → ℤ → ℤ
  target_of sd queue =
      target_replicas (min_replicas_of sd.spec) (max_replicas_of sd.spec) (threshold_of sd.spec)
        queue

  unfoldable pub reconcile : ℤ → ℤ → ObjectKey → c.World → c.World × Result c.Failure
  reconcile now later req w = elim (c.get_sentinel w req) [
    | Fetched.not_found ↦ (w, stop)
    | Fetched.failed e ↦ (w, fail e)
    | Fetched.found sd ↦
        let queue = queue_depth_or_zero now sd.spec.gateway_address in
        elim (c.get_deployment w (target_key req sd)) [
          | Fetched.failed e ↦ (w, fail e)
          | Fetched.not_found ↦ status_step later sd queue (pos 0) false w
          | Fetched.found d ↦ scale_step later sd queue (target_of sd queue) d w
        ]
  ]
