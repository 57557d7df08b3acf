-- ===== src/Operator/Scaling.antt =====
-- The parameters and the target of a reconciliation
-- (k8s-operator/internal/controller/sentineldeployment_controller.go).
pub mod Target
use velo_infra_playground.Prelude.{
  ℕ, suc, ◌+◌, ◌-◌, ◌/◌, String, ◌||◌, Option, none, some, if◌then◌else◌, ◌==◌, string_Eq,
}
use velo_infra_playground.Prelude.Int.{
  ℤ, pos, negsuc, int_eq, ltb_ℤ, leb_ℤ, neg_ℕ, magnitude, quot, rem,
}
use velo_infra_playground.Prelude.Words.{wrap32}
use velo_infra_playground.Operator.Types.{SentinelDeploymentSpec}

-- `if x <= 0 { x = d }`.
unfoldable pub or_default : ℤ → ℤ → ℤ
or_default x d = if leb_ℤ x (pos 0) then d else x

unfoldable pub min_replicas_of : SentinelDeploymentSpec → ℤ
min_replicas_of spec = or_default spec.min_replicas (pos 1)

unfoldable pub max_replicas_of : SentinelDeploymentSpec → ℤ
max_replicas_of spec = or_default spec.max_replicas (pos 10)

unfoldable pub threshold_of : SentinelDeploymentSpec → ℤ
threshold_of spec = or_default spec.scale_threshold (pos 5)

-- `math.Ceil(float64(q) / float64(t))` for a positive t. The quotient of two 32-bit integers is far
-- enough from the next integer for a float64 to round to the right side of it, so that the result
-- is the exact one.
unfoldable pub ceil_div : ℤ → ℤ → ℤ
ceil_div (pos q) t = pos ((q + magnitude t - 1) / magnitude t)
ceil_div (negsuc n) t = neg_ℕ (suc n / magnitude t)

unfoldable pub target_replicas : ℤ → ℤ → ℤ → ℤ → ℤ
target_replicas min_replicas max_replicas threshold queue =
    let wanted = wrap32 (ceil_div queue threshold) in
    let raised = if ltb_ℤ wanted min_replicas then min_replicas else wanted in
    if ltb_ℤ max_replicas raised then max_replicas else raised

-- `getQueueDepth` at the clock's reading `now`; `none` is the error of a gateway that cannot be
-- reached.
unfoldable pub get_queue_depth : ℤ → String → Option ℤ
get_queue_depth now address =
    if address == "" || (address == "mock" || address == "localhost:9000")
    then (let cycle = rem (quot now (pos 10)) (pos 3) in
        if int_eq cycle (pos 0)
        then some (pos 2)
        else if int_eq cycle (pos 1)
        then some (pos 8)
        else some (pos 18))
    else none

-- The depth that the reconciler goes on with: 0 where the query fails.
unfoldable pub queue_depth_or_zero : ℤ → String → ℤ
queue_depth_or_zero now address = elim (get_queue_depth now address) [
  | none ↦ pos 0
  | some depth ↦ depth
]
