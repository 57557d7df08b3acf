-- ===== src/Nccl/Network.antt =====
-- Goroutines in a ring: each owns a buffer, sends to the next one's channel and receives from its
-- own, once in every round (nccl-visualizer/main.go and simulator.go). What a round sends, and what
-- it does with what it receives, is the program of the ring.
pub mod Ring
pub mod Below
pub mod Limit
pub mod Follows
pub mod Progress
use velo_infra_playground.Prelude.{
  ℕ, suc, ◌%◌, List, [], ◌∷◌, ◌++◌, Bool, true, false, Option, none, some, ltb, leb, nat_eq, length,
  if◌then◌else◌, ◌≡◌, refl,
}

-- `none` is a panic, such as an index out of range. `capacity` is that of a channel.
pub record Program (V M : Type 0) : Type 0 where
  pub size : ℕ
  pub capacity : ℕ
  pub send : ℕ → ℕ → List V → Option M
  pub receive : ℕ → ℕ → M → List V → Option (List V)

-- A goroutine between two channel operations: `done` rounds are over, and `sent` says whether the
-- round's message is out.
pub record Worker (V : Type 0) : Type 0 where
  pub buffer : List V
  pub done : ℕ
  pub sent : Bool

pub record Net (V M : Type 0) : Type 0 where
  pub workers : ℕ → Worker V
  pub inbox : ℕ → List M

pub data Action (V M : Type 0) : Type 0 where
  moved : Net V M → Action V M
  blocked finished panicked : Action V M

abbrev pub settle : {V M : Type 0} → Action V M → Net V M → Net V M
settle (Action.moved t) s = t
settle Action.blocked s = s
settle Action.finished s = s
settle Action.panicked s = s

abbrev pub update {ℓ} : {A : Type ℓ} → (ℕ → A) → ℕ → A → ℕ → A
update f i a j = if nat_eq i j then a else f j

abbrev pub next : ℕ → ℕ → ℕ
next n i = suc i % n

module _ {V M : Type 0} (p : Program V M) where
  -- `channel <- message`, which waits while the channel is full.
  unfoldable pub send_action : ℕ → Net V M → Action V M
  send_action i s =
      let w = s.workers i in
      let j = next p.size i in
      if ltb (length (s.inbox j)) p.capacity
      then elim (p.send i w.done w.buffer) [
        | none ↦ panicked
        | some m ↦ moved (record {
          workers = update s.workers i (record w { sent = true });
          inbox = update s.inbox j (s.inbox j ++ (m ∷ []));
        })
      ]
      else blocked

  -- `message := <-channel`, which waits while the channel is empty, and the rest of the round.
  unfoldable pub receive_action : ℕ → Net V M → Action V M
  receive_action i s =
      let w = s.workers i in
      elim (s.inbox i) [
        | [] ↦ blocked
        | m ∷ rest ↦ elim (p.receive i w.done m w.buffer) [
          | none ↦ panicked
          | some buffer ↦ moved (record {
            workers =
                update s.workers i (record { buffer = buffer; done = suc w.done; sent = false });
            inbox = update s.inbox i rest;
          })
        ]
      ]

  -- The next channel operation of goroutine `i`, which ends after `limit` rounds.
  unfoldable pub fire : ℕ → ℕ → Net V M → Action V M
  fire limit i s =
      if leb limit (s.workers i).done
      then finished
      else if (s.workers i).sent
      then receive_action i s
      else send_action i s

  -- A schedule names the goroutine that is to move next; one that cannot is passed over.
  unfoldable pub run : ℕ → List ℕ → Net V M → Net V M
  run limit [] s = s
  run limit (i ∷ is) s = run limit is (settle (fire limit i s) s)

  -- A schedule may be cut in two.
  pub run-append :
      (limit : ℕ) (is js : List ℕ) (s : Net V M)
      → run limit (is ++ js) s ≡ run limit js (run limit is s)
  unfolding run
  run-append limit [] js s = refl
  run-append limit (i ∷ is) js s = run-append limit is js (settle (fire limit i s) s)
