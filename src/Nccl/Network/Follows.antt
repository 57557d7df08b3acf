-- ===== src/Nccl/Network/Follows.antt =====
-- Whatever the schedule, the goroutines compute what they compute round by round.
use velo_infra_playground.Prelude.{
  ℕ, suc, ◌+◌, ◌≤◌, ◌<◌, ◌≡◌, ◌≢◌, refl, sym, ap, subst, ◌∙◌, inl, inr, List, [], ◌∷◌, ◌++◌, All,
  true, false, some, ltb, leb, length, arith, Bool-cases, Eq-cases, nat_Eq,
}
use velo_infra_playground.Nccl.Network.{
  Program, Net, Action, settle, update, next, send_action, receive_action, fire, run,
}
use velo_infra_playground.Nccl.Network.Ring.{
  prev, next-prev, prev-next, sent_rounds, List-cases, update_at, update_off,
}

module _ {V M : Type 0} (p : Program V M) (rounds : ℕ) (buffers : ℕ → ℕ → List V)
    (letters : ℕ → ℕ → M) where
  -- What the goroutines compute round by round: `buffers k i` is the buffer of i after k rounds,
  -- and `letters k i` what it sends in round k.
  pub record Runs : Type 0 where
    pub room : 0 < p.capacity
    pub sends : (k i : ℕ) → k < rounds → i < p.size → p.send i k (buffers k i) ≡ some (letters k i)
    pub receives :
        (k i : ℕ)
        → k < rounds
        → i < p.size
        → p.receive i k (letters k (prev p.size i)) (buffers k i) ≡ some (buffers (suc k) i)

  -- The messages that j sends in the rounds from k on.
  abbrev pub letters_from : ℕ → ℕ → ℕ → List M
  letters_from j k ℕ.zero = []
  letters_from j k (ℕ.suc c) = letters k j ∷ letters_from j (suc k) c

  letters_from-append :
      (j k c : ℕ) → letters_from j k c ++ (letters (k + c) j ∷ []) ≡ letters_from j k (suc c)
  letters_from-append j k ℕ.zero = ap (λ r. letters r j ∷ []) (omega arith)
  letters_from-append j k (ℕ.suc c) =
      ap (λ l. letters k j ∷ l)
        (ap (λ r. letters_from j (suc k) c ++ (letters r j ∷ [])) (omega arith)
          ∙ letters_from-append j (suc k) c)

  letters_from-first :
      (j k w : ℕ) {m : M} {rest : List M}
      → letters_from j k w ≡ m ∷ rest
      → (c : ℕ) × (w ≡ suc c) × (m ≡ letters k j) × (rest ≡ letters_from j (suc k) c)
  letters_from-first j k ℕ.zero e = cc
  letters_from-first j k (ℕ.suc c) e = (c, refl, cc, cc)

  -- Goroutine i is where its rounds have brought it, and its channel holds what the one before it
  -- has sent and it has not yet received.
  pub record At (s : Net V M) (i : ℕ) : Type 0 where
    pub waiting : ℕ
    pub buffer : (s.workers i).buffer ≡ buffers (s.workers i).done i
    pub inbox : s.inbox i ≡ letters_from (prev p.size i) (s.workers i).done waiting
    pub counted : (s.workers i).done + waiting ≡ sent_rounds (s.workers (prev p.size i))

  abbrev pub Inv : Net V M → Type 0
  Inv s = (i : ℕ) → i < p.size → At s i

  -- The outcomes that a correct ring has.
  abbrev pub Good : Action V M → Type 0
  Good (Action.moved t) = Inv t
  Good Action.blocked = Unit
  Good Action.finished = Unit
  Good Action.panicked = ⊥

  module _ (follows : Runs) (s : Net V M) (inv : Inv s) (i : ℕ) (i_lt : i < p.size) where
    -- After i has sent in its round.
    abbrev after_send : Net V M
    after_send = record {
      workers = update s.workers i (record (s.workers i) { sent = true });
      inbox =
          update s.inbox (next p.size i)
            (s.inbox (next p.size i) ++ (letters (s.workers i).done i ∷ []));
    }

    after_send-done : (k : ℕ) → (after_send.workers k).done ≡ (s.workers k).done
    after_send-done k = ground arith

    after_send-buffer : (k : ℕ) → (after_send.workers k).buffer ≡ (s.workers k).buffer
    after_send-buffer k = ground arith

    after_send-sent :
        (k : ℕ) → i ≢ k → sent_rounds (after_send.workers k) ≡ sent_rounds (s.workers k)
    after_send-sent k ne = ground arith

    after_send-sent_self : sent_rounds (after_send.workers i) ≡ suc (s.workers i).done
    after_send-sent_self = ground arith

    send-buffer :
        (j : ℕ) → j < p.size → (after_send.workers j).buffer ≡ buffers (after_send.workers j).done j
    send-buffer j j_lt =
        after_send-buffer j ∙ (inv j j_lt).buffer ∙ ap (λ k. buffers k j) (sym (after_send-done j))

    -- At the receiver one more message waits.
    module _ (fresh : (s.workers i).sent ≡ false) (j : ℕ) (j_lt : j < p.size) where
      send-here : next p.size i ≡ j → At after_send j
      send-here here =
          let held = inv j j_lt in
          let from : prev p.size j ≡ i = ap (prev p.size) (sym here) ∙ prev-next p.size i i_lt in
          let count : (s.workers j).done + held.waiting ≡ (s.workers i).done =
            held.counted ∙ ap (λ k. sent_rounds (s.workers k)) from ∙ rw fresh refl in
          record {
            waiting = suc held.waiting;
            buffer = send-buffer j j_lt;
            inbox =
                update_at s.inbox (next p.size i) j _ here
                ∙ ap (λ k. s.inbox k ++ (letters (s.workers i).done i ∷ [])) here
                ∙ ap (λ l. l ++ (letters (s.workers i).done i ∷ [])) held.inbox
                ∙ ap
                    (λ r.
                      letters_from (prev p.size j) (s.workers j).done held.waiting
                      ++ (letters r i ∷ []))
                    (sym count)
                ∙ ap
                    (λ k.
                      letters_from (prev p.size j) (s.workers j).done held.waiting
                      ++ (letters ((s.workers j).done + held.waiting) k ∷ []))
                    (sym from)
                ∙ letters_from-append (prev p.size j) (s.workers j).done held.waiting
                ∙ ap (λ d. letters_from (prev p.size j) d (suc held.waiting))
                    (sym (after_send-done j));
            counted =
                omega (arith, after_send-done j, count, after_send-sent_self)
                ∙ ap (λ k. sent_rounds (after_send.workers k)) (sym from);
          }

      send-elsewhere : next p.size i ≢ j → At after_send j
      send-elsewhere other =
          let held = inv j j_lt in
          let from : i ≢ prev p.size j =
            λ e. other (ap (next p.size) e ∙ next-prev p.size j j_lt) in
          record {
            waiting = held.waiting;
            buffer = send-buffer j j_lt;
            inbox =
                update_off s.inbox (next p.size i) j _ other
                ∙ held.inbox
                ∙ ap (λ d. letters_from (prev p.size j) d held.waiting) (sym (after_send-done j));
            counted = omega (arith, after_send-done j, held.counted, after_send-sent _ from);
          }

    send-Inv : (s.workers i).sent ≡ false → Inv after_send
    send-Inv fresh j j_lt = elim (Eq-cases (next p.size i) j) [
      | inl here ↦ send-here fresh j j_lt here
      | inr other ↦ send-elsewhere fresh j j_lt other
    ]

    abbrev after_receive : List M → Net V M
    after_receive rest = record {
      workers = update s.workers i (record {
        buffer = buffers (suc (s.workers i).done) i;
        done = suc (s.workers i).done;
        sent = false;
      });
      inbox = update s.inbox i rest;
    }

    module _ (m : M) (rest : List M) (out : (s.workers i).sent ≡ true)
        (full : s.inbox i ≡ m ∷ rest) where
      after_receive-sent :
          (k : ℕ) → sent_rounds ((after_receive rest).workers k) ≡ sent_rounds (s.workers k)
      after_receive-sent k = elim (Eq-cases i k) [
        | inl here ↦ ap sent_rounds (update_at s.workers i k _ here) ∙ rw (← here) (rw out refl)
        | inr other ↦ ap sent_rounds (update_off s.workers i k _ other)
      ]

      first :
          (c : ℕ) × ((inv i i_lt).waiting ≡ suc c)
          × (m ≡ letters (s.workers i).done (prev p.size i))
          × (rest ≡ letters_from (prev p.size i) (suc (s.workers i).done) c)
      first =
          letters_from-first (prev p.size i) (s.workers i).done (inv i i_lt).waiting
            (sym (inv i i_lt).inbox ∙ full)

      receive-here : At (after_receive rest) i
      receive-here =
          let (c, more, _, tail) = first in
          let now =
            update_at s.workers i i
              (record {
                buffer = buffers (suc (s.workers i).done) i;
                done = suc (s.workers i).done;
                sent = false;
              })
              refl in
          record {
            waiting = c;
            buffer = rw now refl;
            inbox = update_at s.inbox i i rest refl ∙ rw now tail;
            counted = rw now (
                omega (arith, more, (inv i i_lt).counted)
                ∙ sym (after_receive-sent (prev p.size i)));
          }

      receive-elsewhere : (j : ℕ) → j < p.size → i ≢ j → At (after_receive rest) j
      receive-elsewhere j j_lt other =
          let held = inv j j_lt in
          let now =
            update_off s.workers i j
              (record {
                buffer = buffers (suc (s.workers i).done) i;
                done = suc (s.workers i).done;
                sent = false;
              })
              other in
          record {
            waiting = held.waiting;
            buffer = rw now held.buffer;
            inbox = update_off s.inbox i j rest other ∙ rw now held.inbox;
            counted = rw now (held.counted ∙ sym (after_receive-sent (prev p.size j)));
          }

    receive-Inv :
        (m : M) (rest : List M)
        → (s.workers i).sent ≡ true
        → s.inbox i ≡ m ∷ rest
        → Inv (after_receive rest)
    receive-Inv m rest out full j j_lt = elim (Eq-cases i j) [
      | inl here ↦ subst (At (after_receive rest)) here (receive-here m rest out full)
      | inr other ↦ receive-elsewhere m rest out full j j_lt other
    ]

    pub send-some :
        (s.workers i).done < rounds
        → p.send i (s.workers i).done (s.workers i).buffer ≡ some (letters (s.workers i).done i)
    send-some early =
        ap (p.send i (s.workers i).done) (inv i i_lt).buffer
        ∙ follows.sends (s.workers i).done i early i_lt

    pub receive-some :
        (m : M) (rest : List M)
        → (s.workers i).sent ≡ true
        → s.inbox i ≡ m ∷ rest
        → (s.workers i).done < rounds
        → p.receive i (s.workers i).done m (s.workers i).buffer
          ≡ some (buffers (suc (s.workers i).done) i)
    receive-some m rest out full early =
        let (_, _, same, _) = first m rest out full in
        ap (λ (l : M). p.receive i (s.workers i).done l (s.workers i).buffer) same
        ∙ ap (p.receive i (s.workers i).done (letters (s.workers i).done (prev p.size i)))
            (inv i i_lt).buffer
        ∙ follows.receives (s.workers i).done i early i_lt

    send_action-Good :
        (s.workers i).done < rounds → (s.workers i).sent ≡ false → Good (send_action p i s)
    unfolding send_action
    send_action-Good early fresh =
        elim (Bool-cases (ltb (length (s.inbox (next p.size i))) p.capacity)) [
          | inl free ↦ rw (send_action, free) (rw (send-some early) (send-Inv fresh))
          | inr full ↦ rw (send_action, full) tt
        ]

    receive_action-Good :
        (s.workers i).done < rounds → (s.workers i).sent ≡ true → Good (receive_action p i s)
    unfolding receive_action
    receive_action-Good early out = elim (List-cases (s.inbox i)) [
      | inl empty ↦ rw (empty, receive_action) tt
      | inr (m, rest, full) ↦
          rw (full, receive_action)
            (rw (receive-some m rest out full early) (receive-Inv m rest out full))
    ]

    pub fire-Good : (limit : ℕ) → limit ≤ rounds → Good (fire p limit i s)
    unfolding fire
    fire-Good limit small = elim (Bool-cases (leb limit (s.workers i).done)) [
      | inl over ↦ rw (over, fire) tt
      | inr early ↦ elim (Bool-cases (s.workers i).sent) [
        | inl out ↦ rw (early, out, fire) (receive_action-Good (ground arith) out)
        | inr fresh ↦ rw (early, fresh, fire) (send_action-Good (ground arith) fresh)
      ]
    ]

  settle-Inv : (a : Action V M) (s : Net V M) → Good a → Inv s → Inv (settle a s)
  settle-Inv (Action.moved t) s good inv = good
  settle-Inv Action.blocked s good inv = inv
  settle-Inv Action.finished s good inv = inv
  settle-Inv Action.panicked s good inv = inv

  pub run-Inv :
      Runs
      → (limit : ℕ) → limit ≤ rounds
      → (schedule : List ℕ) → All (λ i. i < p.size) schedule
      → (s : Net V M) → Inv s
      → Inv (run p limit schedule s)
  unfolding run
  run-Inv follows limit small [] real s inv = inv
  run-Inv follows limit small (i ∷ is) real s inv =
      run-Inv follows limit small is real.1 _
        (settle-Inv (fire p limit i s) s (fire-Good follows s inv i real.0 limit small) inv)

  -- A correct ring does not panic.
  pub Good-ne-panicked : (a : Action V M) → Good a → a ≢ Action.panicked
  Good-ne-panicked (Action.moved t) good e = cc
  Good-ne-panicked Action.blocked good e = cc
  Good-ne-panicked Action.finished good e = cc
  Good-ne-panicked Action.panicked good e = good

  -- The message that waits first is that of the round which the receiver is in.
  pub At-head :
      (s : Net V M) (i : ℕ) {m : M} {rest : List M}
      → At s i
      → s.inbox i ≡ m ∷ rest
      → m ≡ letters (s.workers i).done (prev p.size i)
  At-head s i held full =
      let (_, _, same, _) = letters_from-first _ _ held.waiting (sym held.inbox ∙ full) in same
