-- ===== src/Nccl/Simulator/Tree/Interleaving.antt =====
-- How far the goroutines of a step of the tree have come, in the order of any schedule.
use velo_infra_playground.Prelude.{
  ℕ, suc, ◌+◌, ◌*◌, ◌≤◌, ◌<◌, ◌≡◌, ◌≢◌, refl, sym, ap, subst, ◌∙◌, inl, inr, List, [], ◌∷◌, ◌++◌,
  length, length-append, Bool, true, false, not, ◌&&◌, some, Bool-cases, nat_eq, nat_Eq,
  if◌then◌else◌, arith,
}
use velo_infra_playground.Prelude.Int.{pos}
use velo_infra_playground.Nccl.Network.{update}
use velo_infra_playground.Nccl.Sums.{Shuffle, below_list}
use velo_infra_playground.Nccl.Simulator.Types.{BlockMsg}
use velo_infra_playground.Nccl.Simulator.Tree.Run.{tree_sends, addressed, incoming}
use velo_infra_playground.Nccl.Simulator.Tree.Delivery.{select}
use velo_infra_playground.Nccl.Simulator.Tree.Upward.{top_of}
use velo_infra_playground.Nccl.Simulator.Tree.Goroutines.{Flight, take_off, awaited, absorb}
use velo_infra_playground.Nccl.Simulator.Tree.Reorder.{
  append_assoc, Shuffle-refl, Shuffle-append, select_all, Shuffle-front, per_index, same, apart,
  alone,
}
use velo_infra_playground.Nccl.Simulator.Tree.Parcels.{
  absorbed, absorbed-append, incoming-append, addressed-to, single,
}

module _ {V : Type 0} (add : V → V → V) (n k : ℕ) (buffers : ℕ → List V) where
  -- What goes from j to i in the step.
  abbrev pub parcel : ℕ → ℕ → List (BlockMsg V)
  parcel i j = addressed i (tree_sends n k j (buffers j))

  -- How far a step is: which GPUs have put their message into a channel, in which order, and which
  -- messages have been taken out.
  pub record Sound (f : Flight V) : Type 0 where
    pub sent : ℕ → ℕ → Bool
    pub delivered : ℕ → List ℕ
    pub consumed : ℕ → List (BlockMsg V)
    pub order :
        (i : ℕ)
        → Shuffle (delivered i ++ select (λ j. not (sent i j)) (below_list n)) (below_list n)
    pub arrived : (i : ℕ) → consumed i ++ f.channels i ≡ incoming n k buffers i (delivered i)
    pub left : (i j : ℕ) → addressed i (f.outgoing j) ≡ (if sent i j then [] else parcel i j)
    pub taken : (i : ℕ) → absorbed add n k (consumed i) (buffers i) ≡ some (f.held i)
    pub counted : (i : ℕ) → length (consumed i) + f.waits_for i ≡ awaited n k i

  pub take_off-Sound : Sound (take_off n k buffers)
  unfolding incoming
  take_off-Sound = record {
    sent = λ i j. false;
    delivered = λ i. [];
    consumed = λ i. [];
    order = λ i.
        subst (λ xs. Shuffle xs (below_list n)) (sym (select_all _ (below_list n) (λ j. refl)))
          (Shuffle-refl (below_list n));
    arrived = λ i. refl;
    left = λ i j. refl;
    taken = λ i. refl;
    counted = λ i. omega arith;
  }

  -- A GPU takes a message out of its channel.
  module _ (f : Flight V) (sound : Sound f) (i m : ℕ) (msg : BlockMsg V) (rest : List (BlockMsg V))
      (held : List V) (full : f.channels i ≡ msg ∷ rest) (some_left : f.waits_for i ≡ suc m)
      (fits : absorb add n k msg (f.held i) ≡ some held) where
    abbrev got : Flight V
    got = record f {
      waits_for = update f.waits_for i m;
      held = update f.held i held;
      channels = update f.channels i rest;
    }

    pub got-Sound : Sound got
    got-Sound = record {
      sent = sound.sent;
      delivered = sound.delivered;
      consumed = update sound.consumed i (sound.consumed i ++ (msg ∷ []));
      order = sound.order;
      left = sound.left;
      arrived =
          per_index
            (λ x.
              update sound.consumed i (sound.consumed i ++ (msg ∷ [])) x
                ++ update f.channels i rest x
              ≡ incoming n k buffers x (sound.delivered x))
            i
            (rw (same i) (
              append_assoc (sound.consumed i) (msg ∷ []) rest
              ∙ ap (λ l. sound.consumed i ++ l) (sym full)
              ∙ sound.arrived i))
            (λ x other. rw (apart i x other) (sound.arrived x));
      taken =
          per_index
            (λ x.
              absorbed add n k (update sound.consumed i (sound.consumed i ++ (msg ∷ [])) x)
                (buffers x)
              ≡ some (update f.held i held x))
            i
            (rw (same i) (
              absorbed-append add n k (sound.consumed i) msg (buffers i) (f.held i) held
                (sound.taken i) fits))
            (λ x other. rw (apart i x other) (sound.taken x));
      counted =
          per_index
            (λ x.
              length (update sound.consumed i (sound.consumed i ++ (msg ∷ [])) x)
                + update f.waits_for i m x
              ≡ awaited n k x)
            i
            (rw (same i) (
              omega
                (arith, length-append (sound.consumed i) (msg ∷ []), sound.counted i, some_left)))
            (λ x other. rw (apart i x other) (sound.counted x));
    }

  -- A GPU puts a message into the channel of GPU r.
  module _ (down : k < 2 * top_of n) (f : Flight V) (sound : Sound f) (j : ℕ) (j_lt : j < n)
      (msg : BlockMsg V) (rest : List (BlockMsg V)) (r : ℕ) (to_r : msg.receiver_id ≡ pos r)
      (next_out : f.outgoing j ≡ msg ∷ rest) where
    -- The message is what goes from j to r, and nothing else does.
    unsent : (sound.sent r j ≡ false) × (parcel r j ≡ msg ∷ []) × (addressed r rest ≡ [])
    unsent =
        let now : msg ∷ addressed r rest ≡ (if sound.sent r j then [] else parcel r j) =
          sym (addressed-to r r msg rest to_r ∙ rw (same r) refl)
          ∙ sym (ap (addressed r) next_out)
          ∙ sound.left r j in
        elim (Bool-cases (sound.sent r j)) [
          | inl already ↦ absurd (nonempty (now ∙ rw already refl))
          | inr open_yet ↦
              let all : msg ∷ addressed r rest ≡ parcel r j = now ∙ rw open_yet refl in
              let none_left =
                alone msg (addressed r rest)
                  (subst (λ l. length l ≤ 1) (sym all) (single n k r j (buffers j) down)) in
              (open_yet, sym all ∙ ap (λ l. msg ∷ l) none_left, none_left)
        ]
      where
        nonempty : {x : BlockMsg V} {xs : List (BlockMsg V)} → x ∷ xs ≡ [] → ⊥
        nonempty e = cc

    abbrev after_put : Flight V
    after_put = record f {
      outgoing = update f.outgoing j rest;
      channels = update f.channels r (f.channels r ++ (msg ∷ []));
    }

    abbrev sent' : ℕ → ℕ → Bool
    sent' i x = if nat_eq r i && nat_eq j x then true else sound.sent i x

    arrives : msg ∷ [] ≡ incoming n k buffers r (j ∷ [])
    unfolding incoming
    arrives = ap (λ l. l ++ []) (sym unsent.1)

    rest_left : (i : ℕ) → addressed i rest ≡ (if sent' i j then [] else parcel i j)
    rest_left =
        per_index (λ i. addressed i rest ≡ (if sent' i j then [] else parcel i j)) r
          (rw (same r, same j) unsent.2)
          (λ i other. rw (apart r i other) (
            sym (addressed-to i r msg rest to_r ∙ rw (apart r i other) refl)
            ∙ sym (ap (addressed i) next_out)
            ∙ sound.left i j))

    elsewhere :
        (i x : ℕ)
        → j ≢ x
        → addressed i (update f.outgoing j rest x) ≡ (if sent' i x then [] else parcel i x)
    elsewhere i x other = rw (apart j x other) (elim (Bool-cases (nat_eq r i)) [
      | inl e ↦ rw e (sound.left i x)
      | inr e ↦ rw e (sound.left i x)
    ])

    pub put-Sound : Sound after_put
    put-Sound = record {
      sent = sent';
      delivered = update sound.delivered r (sound.delivered r ++ (j ∷ []));
      consumed = sound.consumed;
      order =
          per_index
            (λ i.
              Shuffle
                (update sound.delivered r (sound.delivered r ++ (j ∷ [])) i
                  ++ select (λ x. not (sent' i x)) (below_list n))
                (below_list n))
            r
            (rw (same r) (
              subst (λ l. Shuffle l (below_list n))
                (sym (append_assoc (sound.delivered r) (j ∷ []) _))
                (Shuffle.trans
                  (Shuffle-append (sound.delivered r) (
                    Shuffle-front (λ x. not (sound.sent r x))
                      (λ x. not (if nat_eq j x then true else sound.sent r x)) j n j_lt
                      (rw unsent.0 refl) (rw (same j) refl) (λ x other. rw (apart j x other) refl)))
                  (sound.order r))))
            (λ i other. rw (apart r i other) (sound.order i));
      arrived =
          per_index
            (λ i.
              sound.consumed i ++ update f.channels r (f.channels r ++ (msg ∷ [])) i
              ≡ incoming n k buffers i (update sound.delivered r (sound.delivered r ++ (j ∷ [])) i))
            r
            (rw (same r) (
              sym (append_assoc (sound.consumed r) (f.channels r) (msg ∷ []))
              ∙ ap (λ l. l ++ (msg ∷ [])) (sound.arrived r)
              ∙ ap (λ l. incoming n k buffers r (sound.delivered r) ++ l) arrives
              ∙ sym (incoming-append n k buffers r (sound.delivered r) (j ∷ []))))
            (λ i other. rw (apart r i other) (sound.arrived i));
      left = λ i.
          per_index
            (λ x. addressed i (update f.outgoing j rest x) ≡ (if sent' i x then [] else parcel i x))
            j (rw (same j) (rw (same j) at rest_left i)) (elsewhere i);
      taken = sound.taken;
      counted = sound.counted;
    }
