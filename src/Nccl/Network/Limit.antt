-- ===== src/Nccl/Network/Limit.antt =====
-- No schedule takes a goroutine beyond its last round.
use velo_infra_playground.Prelude.{
  ℕ, ◌≤◌, ◌<◌, ◌≡◌, inl, inr, List, [], ◌∷◌, leb, nat_Eq, arith, Bool-cases,
}
use velo_infra_playground.Nccl.Network.{
  Program, Net, settle, send_action, receive_action, fire, run,
}

module _ {V M : Type 0} (p : Program V M) (limit : ℕ) where
  send_action-done :
      (i j : ℕ) (s : Net V M) → ((settle (send_action p i s) s).workers j).done ≡ (s.workers j).done
  unfolding send_action
  send_action-done i j s = ground arith

  receive_action-done :
      (i j : ℕ) (s : Net V M)
      → (s.workers i).done < limit
      → (s.workers j).done ≤ limit
      → ((settle (receive_action p i s) s).workers j).done ≤ limit
  unfolding receive_action
  receive_action-done i j s early h = ground arith

  fire-done :
      (i j : ℕ) (s : Net V M)
      → (s.workers j).done ≤ limit
      → ((settle (fire p limit i s) s).workers j).done ≤ limit
  unfolding fire
  fire-done i j s h = elim (Bool-cases (leb limit (s.workers i).done)) [
    | inl over ↦ rw (over, fire) h
    | inr early ↦ elim (Bool-cases (s.workers i).sent) [
      | inl out ↦ rw (early, out, fire) (receive_action-done i j s (ground arith) h)
      | inr fresh ↦ rw (early, fresh, fire) (omega (arith, send_action-done i j s))
    ]
  ]

  -- No goroutine goes beyond the limit.
  pub run-done :
      (schedule : List ℕ) (j : ℕ) (s : Net V M)
      → (s.workers j).done ≤ limit
      → ((run p limit schedule s).workers j).done ≤ limit
  unfolding run
  run-done [] j s h = h
  run-done (i ∷ is) j s h = run-done is j _ (fire-done i j s h)
