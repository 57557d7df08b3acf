-- ===== src/Nccl/Node/Correct.antt =====
-- What the nodes end with.
use velo_infra_playground.Prelude.{
  ℕ, suc, ◌+◌, ◌-◌, ◌*◌, ◌^◌, ◌<◌, ◌≡◌, refl, sym, ap, ◌∙◌, inl, inr, List, some, ltb,
  if◌then◌else◌, arith, Bool-cases,
}
use velo_infra_playground.Prelude.Int.{pos, rem}
use velo_infra_playground.Prelude.Words.{add64, sub64, add64-pos}
use velo_infra_playground.Nccl.Network.Ring.{prev}
use velo_infra_playground.Nccl.Network.Follows.{Runs, Inv}
use velo_infra_playground.Nccl.Buffers.{
  load, store, tabulate, load-tabulate, store-tabulate, tabulate-ext,
}
use velo_infra_playground.Nccl.Index.{rem-shifted, sub64-sub64_one}
use velo_infra_playground.Nccl.AllReduce.{block, block-lt, value, value-start, value-written}
use velo_infra_playground.Nccl.Node.{
  Message, send_index, receive_index, send, receive, ring, rounds, start,
}

-- The chunk numbers of the program are the blocks of the ring.
pub send_index-block :
    (n id k : ℕ) → n < 2 ^ 61 → id < n → k < 2 * (n - 1) → send_index n id k ≡ pos (block n id k)
unfolding send_index
send_index-block n id k small h r = elim (Bool-cases (ltb k (n - 1))) [
  | inl early ↦
      rw (early, send_index)
        (rem-shifted id k n (omega arith) (omega arith) (ground arith) small ∙ ground arith)
  | inr late ↦
      rw (late, send_index)
        (ap (λ x. rem (add64 (sub64 x (pos (k - (n - 1)))) (pos n)) (pos n))
            (add64-pos id 1 (omega arith))
          ∙ rem-shifted (id + 1) (k - (n - 1)) n (omega arith) (omega arith) (omega arith) small
          ∙ ground arith)
]

pub receive_index-block :
    (n id k : ℕ)
    → n < 2 ^ 61
    → id < n
    → k < 2 * (n - 1)
    → receive_index n id k ≡ pos (block n (prev n id) k)
unfolding receive_index
receive_index-block n id k small h r = elim (Bool-cases (ltb k (n - 1))) [
  | inl early ↦
      rw (early, receive_index)
        (ap (λ x. rem (add64 x (pos n)) (pos n)) (sub64-sub64_one id k (omega arith) (ground arith))
          ∙ rem-shifted id (suc k) n (omega arith) (omega arith) (ground arith) small
          ∙ ground arith)
  | inr late ↦
      rw (late, receive_index)
        (rem-shifted id (k - (n - 1)) n (omega arith) (omega arith) (omega arith) small
          ∙ ground arith)
]

module _ {V : Type 0} (add : V → V → V) (n : ℕ) (initial : ℕ → ℕ → V) (many : 1 < n)
    (small : n < 2 ^ 61) where
  -- Round by round.
  abbrev pub buffers : ℕ → ℕ → List V
  buffers k i = tabulate n (value add n initial k i)

  abbrev pub letters : ℕ → ℕ → Message V
  letters k i = record {
    step = pos (if ltb k (n - 1) then k else k - (n - 1));
    chunk_index = send_index n i k;
    value = value add n initial k i (block n i k);
  }

  sends : (k i : ℕ) → k < rounds add n → i < n → send add n i k (buffers k i) ≡ some (letters k i)
  unfolding send
  sends k i r i_lt =
      rw
        (
          ap (load (buffers k i)) (send_index-block n i k small i_lt r)
              ∙ load-tabulate n (block n i k) (value add n initial k i) (block-lt n i k i_lt r),
          send,
        )
        refl

  module _ (k i : ℕ) (r : k < rounds add n) (i_lt : i < n) where
    abbrev arrives : ℕ
    arrives = block n (prev n i) k

    arrives-lt : arrives < n
    arrives-lt = block-lt n (prev n i) k (ground arith) r

    own : load (buffers k i) (receive_index n i k) ≡ some (value add n initial k i arrives)
    own =
        ap (load (buffers k i)) (receive_index-block n i k small i_lt r)
        ∙ load-tabulate n arrives (value add n initial k i) arrives-lt

    stored :
        (v : V)
        → v ≡ (
            if ltb k (n - 1)
            then add (value add n initial k i arrives) (value add n initial k (prev n i) arrives)
            else value add n initial k (prev n i) arrives)
        → store (buffers k i) (receive_index n i k) v ≡ some (buffers (suc k) i)
    stored v e =
        ap (λ x. store (buffers k i) x v) (receive_index-block n i k small i_lt r)
        ∙ ap (store (buffers k i) (pos arrives)) e
        ∙ store-tabulate n arrives (value add n initial k i) (value add n initial (suc k) i) _
            arrives-lt (λ b b_lt. value-written add n initial k i b r i_lt b_lt)

    receives : receive add n i k (letters k (prev n i)) (buffers k i) ≡ some (buffers (suc k) i)
    unfolding receive
    receives = elim (Bool-cases (ltb k (n - 1))) [
      | inl early ↦ rw (early, receive) (rw own (stored _ (rw early refl)))
      | inr late ↦ rw (late, receive) (stored _ (rw late refl))
    ]

  pub ring-Runs : Runs (ring add n) (rounds add n) buffers letters
  ring-Runs = record { room = omega arith; sends = sends; receives = receives }

  pub start-Inv : Inv (ring add n) (rounds add n) buffers letters (start n initial)
  unfolding start
  start-Inv i i_lt = record {
    waiting = 0;
    buffer = tabulate-ext n _ _ (λ b b_lt. sym (value-start add n initial i b many i_lt b_lt));
    inbox = refl;
    counted = refl;
  }
