-- ===== src/Operator/Reconciler/Contract.antt =====
-- What a reconciliation guarantees, whatever the API server answers.
use velo_infra_playground.Prelude.{
  ◌≡◌, ◌≢◌, Bool, true, false, List, [], ◌∷◌, ◌++◌, ◌⊎◌, sym, subst, Option, Option-cases, some,
  arith, inl, inr, refl, Eq-cases,
}
use velo_infra_playground.Prelude.Tests.{beq_ne}
use velo_infra_playground.Prelude.Int.{ℤ, pos, ◌≤ℤ◌, int_eq_iff, int_Eq}
use velo_infra_playground.Operator.Types.{
  SentinelDeployment, ObjectKey, Fetched, Updated, Cluster, Write, recorded,
}
use velo_infra_playground.Operator.Scaling.{max_replicas_of, queue_depth_or_zero}
use velo_infra_playground.Operator.Scaling.Target.{target_replicas-limits}
use velo_infra_playground.Operator.Reconciler.{
  Result, current_replicas, next_status, status_step, scale_step, target_key, target_of, reconcile,
}

Updated-cases :
    {E A : Type 0} (r : Updated E A)
    → ((x : A) × (r ≡ Updated.stored x)) ⊎ ((e : E) × (r ≡ Updated.rejected e))
Updated-cases (Updated.stored x) = inl (x, refl)
Updated-cases (Updated.rejected e) = inr (e, refl)

module _ (c : Cluster) (later : ℤ) (sd : SentinelDeployment) (target queue : ℤ) where
  -- A write of the status that keeps the spec, and notes a replica count, the queue depth and the
  -- time of the last scaling.
  abbrev pub IsNote : ℤ → Option ℤ → SentinelDeployment → Type 0
  IsNote replicas last new =
      (new.spec ≡ sd.spec)
      × (new.status
          ≡ record { replicas = replicas; active_queue_depth = queue; last_scale_time = last })

  -- The status has the replica count and the queue depth already.
  abbrev pub IsCurrent : ℤ → Type 0
  IsCurrent replicas = (sd.status.replicas ≡ replicas) × (sd.status.active_queue_depth ≡ queue)

  -- The writes that are asked for, in order, where the deployment that was read is d. An update of
  -- the deployment is asked for only where it has not its target, and the status only tells of a
  -- scaling that the API server took.
  pub data Writes (d : c.Deployment) (w : c.World) : List (Write c) → Type 0 where
    none_needed : current_replicas c d ≡ target → IsCurrent (c.status_replicas d) → Writes d w []
    note_only :
        (new : SentinelDeployment)
        → current_replicas c d ≡ target
        → ¬ IsCurrent (c.status_replicas d)
        → IsNote (c.status_replicas d) sd.status.last_scale_time new
        → Writes d w (Write.note new ∷ [])
    refused :
        (e : c.Failure)
        → current_replicas c d ≢ target
        → (c.update_deployment w (c.set_replicas target d)).1 ≡ Updated.rejected e
        → Writes d w (Write.scale (c.set_replicas target d) ∷ [])
    taken :
        (d' : c.Deployment) (new : SentinelDeployment)
        → current_replicas c d ≢ target
        → (c.update_deployment w (c.set_replicas target d)).1 ≡ Updated.stored d'
        → IsNote (c.status_replicas d') (some later) new
        → Writes d w (Write.scale (c.set_replicas target d) ∷ (Write.note new ∷ []))

  abbrev noted : ℤ → Bool → SentinelDeployment
  noted current scaled = record sd { status = next_status c later queue current scaled sd.status }

  -- Recording leaves the status step as it is, and shows one write or, with nothing to tell, none.
  status_step-recorded :
      (current : ℤ) (scaled : Bool) (w : c.World) (log : List (Write c))
      → let ((w', log'), result) =
          status_step (recorded c) later sd queue current scaled (w, log) in
        ((w', result) ≡ status_step c later sd queue current scaled w)
        × (((scaled ≡ false) × IsCurrent current × (log' ≡ log))
            ⊎ (((scaled ≡ true) ⊎ ¬ IsCurrent current)
                × (log' ≡ log ++ (Write.note (noted current scaled) ∷ []))))
  unfolding status_step
  status_step-recorded current scaled w log =
      elim (Option-cases (c.update_status w (noted current scaled)).1) [
        | inl p ↦ ground (arith, p)
        | inr (e, p) ↦ ground (arith, p)
      ]

  abbrev Shown :
      c.Deployment
      → c.World
      → c.World × Result c.Failure
      → (c.World × List (Write c)) × Result c.Failure
      → Type 0
  Shown d w plain logged = ((logged.0.0, logged.1) ≡ plain) × Writes d w logged.0.1

  at_target-Shown :
      (d : c.Deployment) (w : c.World)
      → current_replicas c d ≡ target
      → Shown d w
          (status_step c later sd queue (c.status_replicas d) false w)
          (status_step (recorded c) later sd queue (c.status_replicas d) false (w, []))
  unfolding next_status
  at_target-Shown d w p =
      let (same, log) = status_step-recorded (c.status_replicas d) false w [] in
      (
        same,
        elim log [
          | inl (_, now, e) ↦ subst (Writes d w) (sym e) (none_needed p now)
          | inr (inl scaled, _) ↦ ground (arith, scaled)
          | inr (inr stale, e) ↦ subst (Writes d w) (sym e) (note_only _ p stale (refl, refl))
        ],
      )

  taken-Shown :
      (d d' : c.Deployment) (w w' : c.World)
      → current_replicas c d ≢ target
      → (c.update_deployment w (c.set_replicas target d)).1 ≡ Updated.stored d'
      → Shown d w (status_step c later sd queue (c.status_replicas d') true w') (
          status_step
            (recorded c)
            later
            sd
            queue
            (c.status_replicas d')
            true
            (w', Write.scale (c.set_replicas target d) ∷ []))
  unfolding next_status
  taken-Shown d d' w w' p q =
      let (same, log) =
        status_step-recorded (c.status_replicas d') true w'
          (Write.scale (c.set_replicas target d) ∷ []) in
      (
        same,
        elim log [
          | inl (e, _, _) ↦ ground (arith, e)
          | inr (_, e) ↦ subst (Writes d w) (sym e) (taken d' _ p q (refl, refl))
        ],
      )

  scale_step-Shown :
      (d : c.Deployment) (w : c.World)
      → Shown d w
          (scale_step c later sd queue target d w)
          (scale_step (recorded c) later sd queue target d (w, []))
  unfolding scale_step current_replicas
  scale_step-Shown d w = elim (Eq-cases (current_replicas c d) target) [
    | inl p ↦ rw ((int_eq_iff (current_replicas c d) target).1 p) (at_target-Shown d w p)
    | inr p ↦
        rw (beq_ne (current_replicas c d) target p)
          (elim (Updated-cases (c.update_deployment w (c.set_replicas target d)).1) [
            | inl (d', q) ↦ rw q (taken-Shown d d' w _ p q)
            | inr (e, q) ↦ rw q (refl, refused e p q)
          ])
  ]

module _ (c : Cluster) (now later : ℤ) (req : ObjectKey) (w : c.World) where
  module _ (sd : SentinelDeployment) (d : c.Deployment)
      (there : c.get_sentinel w req ≡ Fetched.found sd)
      (target_there : c.get_deployment w (target_key c req sd) ≡ Fetched.found d) where
    -- Whatever the API server answers to the writes, a reconciliation that finds the resource and its
    -- deployment asks for the following, in this order. Where the deployment has its target, no
    -- update of it; otherwise one, of the deployment that was read with the target as its replicas.
    -- Then one write of the status, or none if the update was refused, or if none was needed and
    -- the status is current. The status keeps the spec, and notes the queue depth, the replicas and
    -- the time of a scaling exactly if the deployment was updated. The target is from 1 to the upper
    -- limit. Recording the writes changes neither the API server's state nor the result.
    pub reconcile-Writes :
        let queue = queue_depth_or_zero now sd.spec.gateway_address in
        let target = target_of c sd queue in
        let ((w', log), result) = reconcile (recorded c) now later req (w, []) in
        ((w', result) ≡ reconcile c now later req w)
        × Writes c later sd target queue d w log
        × (pos 1 ≤ℤ target)
        × (target ≤ℤ max_replicas_of sd.spec)
    unfolding reconcile
    reconcile-Writes =
        let queue : ℤ = queue_depth_or_zero now sd.spec.gateway_address in
        let (same, writes) = scale_step-Shown c later sd (target_of c sd queue) queue d w in
        let (least, most, _) = target_replicas-limits sd.spec queue in
        rw (there, reconcile) (rw target_there (same, writes, least, most))
