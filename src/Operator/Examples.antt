-- ===== src/Operator/Examples.antt =====
-- The theorems on a concrete API server, which holds one resource and one deployment.
use velo_infra_playground.Prelude.{
  ℕ, ◌≡◌, ◌≤◌, ◌<◌, ◌*◌, ◌-◌, ◌⊎◌, refl, Option, none, some, [], ◌∷◌, if◌then◌else◌, ◌==◌,
  string_Eq, arith,
}
use velo_infra_playground.Prelude.Int.{ℤ, pos, ◌≤ℤ◌, ◌<ℤ◌, rem, quot}
use mathlib.Core.Bool.{xor}
use velo_infra_playground.Prelude.Words.{wrap32}
use velo_infra_playground.Operator.Types.{
  SentinelDeploymentSpec, SentinelDeployment, ObjectKey, Fetched, Updated, Cluster, Write, recorded,
}
use velo_infra_playground.Operator.Scaling.{
  target_replicas, or_default, ceil_div, min_replicas_of, max_replicas_of, threshold_of,
  queue_depth_or_zero, get_queue_depth,
}
use velo_infra_playground.Operator.Scaling.Target.{target_replicas-fewest, target_replicas-limits}
use velo_infra_playground.Operator.Reconciler.{
  current_replicas, next_status, status_step, scale_step, target_of, reconcile,
}
use velo_infra_playground.Operator.Reconciler.Contract.{Writes, reconcile-Writes}

-- A deployment is its wanted replicas and the ones it has.
pub record Counts : Type 0 where
  pub wanted : Option ℤ
  pub running : ℤ

pub record OneDeployment : Type 0 where
  pub resource : SentinelDeployment
  pub deployment : Counts

abbrev fetch : OneDeployment → ObjectKey → Fetched Unit Counts
fetch w key = if key.name == "gateway" then Fetched.found w.deployment else Fetched.not_found

abbrev update : OneDeployment → Counts → OneDeployment × Updated Unit Counts
update w d = (record w { deployment = d }, Updated.stored d)

abbrev one_deployment : Cluster
one_deployment = record {
  World = OneDeployment;
  Deployment = Counts;
  Failure = Unit;
  replicas = λ d. d.wanted;
  set_replicas = λ n d. record d { wanted = some n };
  status_replicas = λ d. d.running;
  get_sentinel =
      λ w key. if key.name == "velo" then Fetched.found w.resource else Fetched.not_found;
  get_deployment = fetch;
  update_deployment = update;
  update_status = λ w sd. (record w { resource = record w.resource { status = sd.status } }, none);
}

abbrev key : ObjectKey
key = record { namespace = "default"; name = "velo" }

abbrev velo : ℤ → SentinelDeployment
velo replicas = record {
  spec = record {
    gateway_address = "mock";
    min_replicas = pos 1;
    max_replicas = pos 10;
    scale_threshold = pos 5;
    target_deployment = "gateway";
  };
  status = record { replicas = replicas; active_queue_depth = pos 8; last_scale_time = none };
}

abbrev world : ℤ → OneDeployment
world n = record { resource = velo n; deployment = record { wanted = some n; running = n } }

target_replicas-fewest_example :
    (r : ℕ) × (target_replicas (pos 1) (pos 10) (pos 5) (pos 18) ≡ pos r)
    × (1 ≤ r)
    × (r ≤ 10)
    × ((18 ≤ r * 5) ⊎ (r ≡ 10))
    × ((r ≡ 1) ⊎ ((r - 1) * 5 < 18))
target_replicas-fewest_example =
    target_replicas-fewest 1 10 5 18 (omega arith) (omega arith) (omega arith)

abbrev spec : SentinelDeploymentSpec
spec = (velo (pos 1)).spec

target_replicas-limits_example :
    let target =
      target_replicas (min_replicas_of spec) (max_replicas_of spec) (threshold_of spec) (pos 90) in
    (pos 1 ≤ℤ target)
    × (target ≤ℤ max_replicas_of spec)
    × ((min_replicas_of spec ≤ℤ target) ⊎ (max_replicas_of spec <ℤ min_replicas_of spec))
target_replicas-limits_example = target_replicas-limits spec (pos 90)

reconcile-Writes_example :
    let queue = queue_depth_or_zero (pos 10) "mock" in
    let target = target_of one_deployment (velo (pos 1)) queue in
    let ((w', log), result) =
      reconcile (recorded one_deployment) (pos 10) (pos 11) key (world (pos 1), []) in
    ((w', result) ≡ reconcile one_deployment (pos 10) (pos 11) key (world (pos 1)))
    × Writes one_deployment
        (pos 11)
        (velo (pos 1))
        target
        queue
        (world (pos 1)).deployment
        (world (pos 1))
        log
    × (pos 1 ≤ℤ target)
    × (target ≤ℤ max_replicas_of spec)
reconcile-Writes_example =
    reconcile-Writes one_deployment (pos 10) (pos 11) key (world (pos 1)) (velo (pos 1))
      (world (pos 1)).deployment refl refl

-- The deployment is updated once, and then the status is noted.
updates_once :
    (reconcile (recorded one_deployment) (pos 10) (pos 11) key (world (pos 1), [])).0.1
    ≡ Write.scale (record { wanted = some (pos 2); running = pos 1 })
      ∷ (Write.note (record (velo (pos 1)) {
        status = record {
          replicas = pos 1;
          active_queue_depth = pos 8;
          last_scale_time = some (pos 11);
        };
      })
          ∷ [])
unfolding reconcile scale_step status_step next_status current_replicas target_replicas
    min_replicas_of max_replicas_of threshold_of or_default ceil_div wrap32 queue_depth_or_zero
    get_queue_depth rem quot xor
updates_once = refl
