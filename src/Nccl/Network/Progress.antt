-- ===== src/Nccl/Network/Progress.antt =====
-- No schedule runs into a deadlock, and every net can be run to its end.
use velo_infra_playground.Prelude.{
  ℕ, suc, ◌+◌, ◌-◌, ◌*◌, ◌≤◌, ◌<◌, ◌≡◌, ◌≢◌, ◌⊎◌, refl, sym, ap, subst, ◌∙◌, inl, inr, List, [],
  ◌∷◌, ◌++◌, All, true, false, ltb, leb, nat_eq, nat_Eq, length, if◌then◌else◌, arith, Bool-cases,
}
use velo_infra_playground.Nccl.Network.{
  Program, Worker, Net, Action, settle, update, next, send_action, receive_action, fire, run,
}
use velo_infra_playground.Nccl.Network.Ring.{prev, prev-next, next-lt, sent_rounds, List-cases}
use velo_infra_playground.Nccl.Network.Follows.{
  Runs, Inv, Good, letters_from, fire-Good, send-some, receive-some,
}
use velo_infra_playground.Nccl.Network.Below.{Below, Below-at, Below-map, least, total, total-less}

prev-lt : (n i : ℕ) → i < n → prev n i < n
prev-lt n i h = ground arith

has_room : (c : ℕ) → 0 < c → ltb 0 c ≡ true
has_room c h = ground arith

-- Channel operations that goroutine i has left.
abbrev pub remaining : {V M : Type 0} → ℕ → Net V M → ℕ → ℕ
remaining limit s i = 2 * limit - (2 * (s.workers i).done + (if (s.workers i).sent then 1 else 0))

sent_rounds-fresh : {V : Type 0} (w : Worker V) → w.sent ≡ false → sent_rounds w ≡ w.done
sent_rounds-fresh w e = ground arith

sent_rounds_least :
    {V : Type 0} (w : Worker V) (d : ℕ)
    → d ≤ w.done
    → d ≡ sent_rounds w
    → (w.done ≡ d) × (w.sent ≡ false)
sent_rounds_least w d le e = ground arith

module _ {V M : Type 0} (p : Program V M) (rounds : ℕ) (buffers : ℕ → ℕ → List V)
    (letters : ℕ → ℕ → M) (follows : Runs p rounds buffers letters) (limit : ℕ)
    (small : limit ≤ rounds) where
  -- Goroutine i makes a move, which brings it one channel operation on and no other one.
  abbrev pub Moves : Net V M → ℕ → Type 0
  Moves s i =
      (t : Net V M) × (fire p limit i s ≡ Action.moved t)
      × (remaining limit t i + 1 ≡ remaining limit s i)
      × ((j : ℕ) → i ≢ j → remaining limit t j ≡ remaining limit s j)

  module _ (s : Net V M) (inv : Inv p rounds buffers letters s) (i : ℕ) (i_lt : i < p.size)
      (early : (s.workers i).done < limit) where
    early_test : leb limit (s.workers i).done ≡ false
    early_test = ground arith

    free : s.inbox (next p.size i) ≡ [] → ltb (length (s.inbox (next p.size i))) p.capacity ≡ true
    free empty = rw empty (has_room p.capacity follows.room)

    -- With room in the next channel, a goroutine that has not sent moves.
    sender-Moves : (s.workers i).sent ≡ false → (s.inbox (next p.size i)) ≡ [] → Moves s i
    unfolding fire send_action
    sender-Moves fresh empty =
        let w = s.workers i in
        let m = letters w.done i in
        (
          record {
            workers = update s.workers i (record w { sent = true });
            inbox = update s.inbox (next p.size i) (s.inbox (next p.size i) ++ (m ∷ []));
          },
          rw (early_test, fresh, fire)
              (rw (free empty, send_action)
                (rw (send-some p rounds buffers letters follows s inv i i_lt (omega arith)) refl)),
          ground arith,
          λ j ne. ground arith,
        )

    -- With a message in its channel, a goroutine that has sent moves.
    receiver-Moves :
        {m : M} {rest : List M} → (s.workers i).sent ≡ true → s.inbox i ≡ m ∷ rest → Moves s i
    unfolding fire receive_action
    receiver-Moves {m} {rest} out full =
        let w = s.workers i in
        (
          record {
            workers =
                update s.workers i
                  (record { buffer = buffers (suc w.done) i; done = suc w.done; sent = false });
            inbox = update s.inbox i rest;
          },
          rw (early_test, out, fire)
              (rw (full, receive_action)
                (rw
                  (receive-some p rounds buffers letters follows s inv i i_lt m rest out full
                    (omega arith))
                  refl)),
          ground arith,
          λ j ne. ground arith,
        )

  none_wait : (j k w : ℕ) → letters_from p rounds buffers letters j k w ≡ [] → w ≡ 0
  none_wait j k ℕ.zero e = refl
  none_wait j k (ℕ.suc w) e = cc

  module _ (s : Net V M) (inv : Inv p rounds buffers letters s) where
    -- Among the goroutines that are least far, one that has not sent can.
    idle-Moves :
        (i : ℕ)
        → i < p.size
        → Below (λ j. (s.workers i).done ≤ (s.workers j).done) p.size
        → (s.workers i).done < limit
        → (s.workers i).sent ≡ false
        → Moves s i
    idle-Moves i i_lt behind early fresh =
        let j_lt = next-lt p.size i i_lt in
        let held = inv (next p.size i) j_lt in
        let none_waits : held.waiting ≡ 0 = omega (
          arith,
          Below-at _ p.size (next p.size i) j_lt behind,
          held.counted
              ∙ ap (λ k. sent_rounds (s.workers k)) (prev-next p.size i i_lt)
              ∙ sent_rounds-fresh (s.workers i) fresh,
        ) in
        sender-Moves s inv i i_lt early fresh (
          held.inbox
          ∙ ap
              (letters_from p rounds buffers letters (prev p.size (next p.size i))
                (s.workers (next p.size i)).done)
              none_waits)

    least-Moves :
        (i : ℕ)
        → i < p.size
        → Below (λ j. (s.workers i).done ≤ (s.workers j).done) p.size
        → (s.workers i).done < limit
        → (j : ℕ) × (j < p.size) × Moves s j
    least-Moves i i_lt behind early = elim (Bool-cases (s.workers i).sent) [
      | inr fresh ↦ (i, i_lt, idle-Moves i i_lt behind early fresh)
      | inl out ↦ elim (List-cases (s.inbox i)) [
        | inr (m, rest, full) ↦ (i, i_lt, receiver-Moves s inv i i_lt early out full)
        | inl empty ↦
            let held = inv i i_lt in
            let back = prev-lt p.size i i_lt in
            let (same, fresh) =
              sent_rounds_least (s.workers (prev p.size i)) (s.workers i).done
                (Below-at _ p.size (prev p.size i) back behind)
                (omega (
                  arith,
                  held.counted,
                  none_wait (prev p.size i) (s.workers i).done held.waiting
                      (sym held.inbox ∙ empty),
                )) in
            (
              prev p.size i,
              back,
              idle-Moves (prev p.size i) back
                  (Below-map p.size
                    (λ j (h : (s.workers i).done ≤ (s.workers j).done). omega (arith, same)) behind)
                  (omega (arith, same)) fresh,
            )
      ]
    ]

    -- All goroutines are at the limit, or one of them moves.
    pub done-or-Moves :
        Below (λ i. limit ≤ (s.workers i).done) p.size ⊎ ((i : ℕ) × (i < p.size) × Moves s i)
    done-or-Moves = elim (Bool-cases (nat_eq p.size 0)) [
      | inl none_there ↦
          inl (subst (Below (λ i. limit ≤ (s.workers i).done)) {x = 0} (is_zero none_there) tt)
      | inr some_there ↦
          let same : suc (p.size - 1) ≡ p.size = ground arith in
          let (i, i_lt, b) = least (λ j. (s.workers j).done) (p.size - 1) in
          let behind = subst (Below (λ j. (s.workers i).done ≤ (s.workers j).done)) same b in
          elim (Bool-cases (leb limit (s.workers i).done)) [
            | inl over ↦ inl (
                Below-map p.size
                  (λ j (h : (s.workers i).done ≤ (s.workers j).done). leb_trans over h) behind)
            | inr early ↦ inr (least-Moves i (omega (arith, same)) behind (not_leb early))
          ]
    ]
      where
        leb_trans : {a b c : ℕ} → leb a b ≡ true → b ≤ c → a ≤ c
        leb_trans e h = ground arith

        is_zero : {a : ℕ} → nat_eq a 0 ≡ true → 0 ≡ a
        is_zero e = ground arith

        not_leb : {a b : ℕ} → leb a b ≡ false → b < a
        not_leb e = ground arith

  moved-Inv :
      (s : Net V M)
      → Inv p rounds buffers letters s
      → (i : ℕ) → i < p.size
      → (t : Net V M) → fire p limit i s ≡ Action.moved t
      → Inv p rounds buffers letters t
  moved-Inv s inv i i_lt t e =
      subst (Good p rounds buffers letters) e
        (fire-Good p rounds buffers letters follows s inv i i_lt limit small)

  -- Some schedule brings every goroutine to the limit.
  completes :
      (fuel : ℕ) (s : Net V M)
      → Inv p rounds buffers letters s
      → total (remaining limit s) p.size ≤ fuel
      → (schedule : List ℕ) × All (λ i. i < p.size) schedule
        × Below (λ i. limit ≤ ((run p limit schedule s).workers i).done) p.size
  unfolding run
  completes ℕ.zero s inv enough = elim (done-or-Moves s inv) [
    | inl over ↦ ([], tt, over)
    | inr (i, i_lt, (t, e, less, same)) ↦
        absurd (
          omega (arith, total-less (remaining limit s) (remaining limit t) p.size i i_lt less same))
  ]
  completes (ℕ.suc fuel) s inv enough = elim (done-or-Moves s inv) [
    | inl over ↦ ([], tt, over)
    | inr (i, i_lt, (t, e, less, same)) ↦
        let (schedule, real, over) = completes fuel t (moved-Inv s inv i i_lt t e) (
          omega
            (arith, total-less (remaining limit s) (remaining limit t) p.size i i_lt less same)) in
        (
          i ∷ schedule,
          (i_lt, real),
          subst
              (λ (a : Action V M).
                Below (λ k. limit ≤ ((run p limit schedule (settle a s)).workers k).done) p.size)
              (sym e) over,
        )
  ]

  pub run-completes :
      (s : Net V M)
      → Inv p rounds buffers letters s
      → (schedule : List ℕ) × All (λ i. i < p.size) schedule
        × Below (λ i. limit ≤ ((run p limit schedule s).workers i).done) p.size
  run-completes s inv = completes (total (remaining limit s) p.size) s inv (omega arith)
