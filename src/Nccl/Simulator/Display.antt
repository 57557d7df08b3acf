-- ===== src/Nccl/Simulator/Display.antt =====
-- The display of a ring against the messages that its GPUs send.
use velo_infra_playground.Prelude.{
  ℕ, ◌-◌, ◌*◌, ◌^◌, ◌<◌, ◌≡◌, refl, ap, ◌∙◌, inl, inr, some, true, ltb, arith, Bool-cases,
}
use velo_infra_playground.Prelude.Int.{pos}
use velo_infra_playground.Prelude.Words.{sub64}
use velo_infra_playground.Nccl.Network.Ring.{prev, next-prev}
use velo_infra_playground.Nccl.Index.{rem-rem-shifted}
use velo_infra_playground.Nccl.Simulator.{send_block_idx, ring_gpu}
use velo_infra_playground.Nccl.Simulator.View.{
  pos_mod, last_sent_to, last_received_from, active_block_idx,
}
use velo_infra_playground.Nccl.Simulator.Types.{Gpu, SimulationState}

ltb-true : (a b : ℕ) → a < b → ltb a b ≡ true
ltb-true a b h = ground arith

pos_mod-prev :
    (n i : ℕ)
    → 1 < n
    → n < 2 ^ 61
    → i < n
    → pos_mod (sub64 (pos i) (pos 1)) (pos n) ≡ pos (prev n i)
unfolding pos_mod
pos_mod-prev n i many small h =
    rem-rem-shifted i 1 n (omega arith) (omega arith) many small ∙ ground arith

-- While a ring is running, a GPU is shown to receive from the GPU that is shown to send to it, which
-- is the one before it in the ring, and the block that it is shown to work on is the one that it
-- sends.
pub display-ring :
    {V : Type 0} (gpus : ℕ → Gpu) (state : SimulationState V) (n i : ℕ)
    → 1 < n
    → n < 2 ^ 61
    → i < n
    → state.step < 2 * (n - 1)
    → (last_sent_to state (ring_gpu n (prev n i)) ≡ some (pos i))
      × (last_received_from gpus state (ring_gpu n i) ≡ some (pos (prev n i)))
      × (active_block_idx state (ring_gpu n i) ≡ some (send_block_idx n i state.step))
unfolding last_sent_to last_received_from active_block_idx send_block_idx
display-ring gpus state n i many small h running = (
  rw (ltb-true _ _ running) (ap (λ x. some (pos x)) (next-prev n i h)),
  rw (ltb-true _ _ running) (ap some (pos_mod-prev n i many small h)),
  elim (Bool-cases (ltb state.step (n - 1))) [
    | inl early ↦ rw early refl
    | inr late ↦ rw (late, ltb-true _ _ running) refl
  ],
)
