-- ===== src/Nccl/Simulator/Correct.antt =====
-- The simulator's rounds are those of the ring all-reduce.
use velo_infra_playground.Prelude.{
  ℕ, suc, ◌+◌, ◌-◌, ◌*◌, ◌^◌, ◌<◌, ◌≡◌, refl, ap, ◌∙◌, inl, inr, List, [], ◌∷◌, some, ltb,
  if◌then◌else◌, arith, Bool-cases, ◌%◌,
}
use velo_infra_playground.Prelude.Int.{pos}
use velo_infra_playground.Prelude.Words.{sub64, add64-pos}
use velo_infra_playground.Nccl.Network.Ring.{prev}
use velo_infra_playground.Nccl.Network.Follows.{Runs}
use velo_infra_playground.Nccl.Buffers.{load, store, tabulate, load-tabulate, store-tabulate}
use velo_infra_playground.Nccl.Index.{rem-rem-shifted}
use velo_infra_playground.Nccl.AllReduce.{block, block-lt, value, value-written}
use velo_infra_playground.Nccl.Simulator.{send_block_idx, send, receive, ring}
use velo_infra_playground.Nccl.Simulator.View.{pos_mod}
use velo_infra_playground.Nccl.Simulator.Types.{BlockMsg, Phase}

pub send_block_idx-block :
    (n id k : ℕ)
    → n < 2 ^ 61
    → id < n
    → k < 2 * (n - 1)
    → send_block_idx n id k ≡ pos (block n id k)
unfolding send_block_idx pos_mod
send_block_idx-block n id k small h r = elim (Bool-cases (ltb k (n - 1))) [
  | inl early ↦
      rw (early, send_block_idx)
        (rem-rem-shifted id k n (omega arith) (omega arith) (ground arith) small ∙ ground arith)
  | inr late ↦
      rw (late, send_block_idx)
        (ap (λ x. pos_mod (sub64 x (pos (k - (n - 1)))) (pos n)) (add64-pos id 1 (omega arith))
          ∙ rem-rem-shifted (id + 1) (k - (n - 1)) n (omega arith) (omega arith) (omega arith) small
          ∙ ground arith)
]

module _ {V : Type 0} (add : V → V → V) (n : ℕ) (initial : ℕ → ℕ → V) (small : n < 2 ^ 61) where
  abbrev pub rounds : ℕ
  rounds = 2 * (n - 1)

  abbrev pub buffers : ℕ → ℕ → List V
  buffers k i = tabulate n (value add n initial k i)

  abbrev pub letters : ℕ → ℕ → BlockMsg V
  letters k i = record {
    sender_id = pos i;
    receiver_id = pos (suc i % n);
    block_idx = send_block_idx n i k;
    values = value add n initial k i (block n i k) ∷ [];
    step = k;
    phase = if ltb k (n - 1) then Phase.reduce_scatter else Phase.all_gather;
  }

  sends : (k i : ℕ) → k < rounds → i < n → send add n i k (buffers k i) ≡ some (letters k i)
  unfolding send
  sends k i r i_lt =
      rw
        (
          ap (load (buffers k i)) (send_block_idx-block n i k small i_lt r)
              ∙ load-tabulate n (block n i k) (value add n initial k i) (block-lt n i k i_lt r),
          send,
        )
        refl

  module _ (k i : ℕ) (r : k < rounds) (i_lt : i < n) where
    abbrev arrives : ℕ
    arrives = block n (prev n i) k

    prev-lt : prev n i < n
    prev-lt = ground arith

    arrives-lt : arrives < n
    arrives-lt = block-lt n (prev n i) k prev-lt r

    index : send_block_idx n (prev n i) k ≡ pos arrives
    index = send_block_idx-block n (prev n i) k small prev-lt r

    own :
        load (buffers k i) (send_block_idx n (prev n i) k) ≡ some (value add n initial k i arrives)
    own =
        ap (load (buffers k i)) index ∙ load-tabulate n arrives (value add n initial k i) arrives-lt

    receives : receive add n i k (letters k (prev n i)) (buffers k i) ≡ some (buffers (suc k) i)
    unfolding receive
    receives =
        rw (own, receive)
          (ap
              (λ x. store (buffers k i) x (
                if ltb k (n - 1)
                then add (value add n initial k i arrives)
                    (value add n initial k (prev n i) arrives)
                else value add n initial k (prev n i) arrives))
              index
            ∙ store-tabulate n arrives (value add n initial k i) (value add n initial (suc k) i) _
                arrives-lt (λ b b_lt. value-written add n initial k i b r i_lt b_lt))

  pub ring-Runs : 0 < n → Runs (ring add n) rounds buffers letters
  ring-Runs h = record { room = omega arith; sends = sends; receives = receives }
