-- ===== src/Operator/Types.antt =====
-- The custom resource (k8s-operator/api/v1alpha1/sentineldeployment_types.go), and what the
-- reconciler uses of the Kubernetes API through controller-runtime's client.
use velo_infra_playground.Prelude.{String, List, [], ◌∷◌, ◌++◌, Option}
use velo_infra_playground.Prelude.Int.{ℤ}

-- `int32` is ℤ.
pub record SentinelDeploymentSpec : Type 0 where
  pub gateway_address : String
  pub min_replicas : ℤ
  pub max_replicas : ℤ
  pub scale_threshold : ℤ
  pub target_deployment : String

pub record SentinelDeploymentStatus : Type 0 where
  pub replicas : ℤ
  pub active_queue_depth : ℤ
  pub last_scale_time : Option ℤ

-- The object's metadata is left out but for the key that it is fetched by.
pub record SentinelDeployment : Type 0 where
  pub spec : SentinelDeploymentSpec
  pub status : SentinelDeploymentStatus

-- `types.NamespacedName`.
pub record ObjectKey : Type 0 where
  pub namespace : String
  pub name : String

-- The outcome of `Get`: the object, the error that `IsNotFound` recognises, or another error.
pub data Fetched (E A : Type 0) : Type 0 where
  found : A → Fetched E A
  not_found : Fetched E A
  failed : E → Fetched E A

-- The outcome of `Update`, which on success leaves the server's version in the object.
pub data Updated (E A : Type 0) : Type 0 where
  stored : A → Updated E A
  rejected : E → Updated E A

-- The API server as the client sees it. `World` is its state; the deployment is
-- `appsv1.Deployment`, of which the reconciler reads and writes the replica counts.
pub record Cluster : Type 1 where
  pub World : Type 0
  pub Deployment : Type 0
  pub Failure : Type 0
  pub replicas : Deployment → Option ℤ
  pub set_replicas : ℤ → Deployment → Deployment
  pub status_replicas : Deployment → ℤ
  pub get_sentinel : World → ObjectKey → Fetched Failure SentinelDeployment
  pub get_deployment : World → ObjectKey → Fetched Failure Deployment
  pub update_deployment : World → Deployment → World × Updated Failure Deployment
  pub update_status : World → SentinelDeployment → World × Option Failure

-- One write that a reconciliation asks of the API server.
pub data Write (c : Cluster) : Type 0 where
  scale : c.Deployment → Write c
  note : SentinelDeployment → Write c

-- The same API server with a record of what is asked of it, taken or refused, in order.
abbrev pub recorded : Cluster → Cluster
recorded c = record {
  World = c.World × List (Write c);
  Deployment = c.Deployment;
  Failure = c.Failure;
  replicas = c.replicas;
  set_replicas = c.set_replicas;
  status_replicas = c.status_replicas;
  get_sentinel = λ w key. c.get_sentinel w.0 key;
  get_deployment = λ w key. c.get_deployment w.0 key;
  update_deployment = λ w d.
      let (w', outcome) = c.update_deployment w.0 d in ((w', w.1 ++ (Write.scale d ∷ [])), outcome);
  update_status = λ w sd.
      let (w', failure) = c.update_status w.0 sd in ((w', w.1 ++ (Write.note sd ∷ [])), failure);
}
