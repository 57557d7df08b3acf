-- ===== src/Nccl/AllReduce.antt =====
-- The ring all-reduce, round by round: which block each GPU sends, and what every block of every
-- GPU holds. In each round of the first phase one block's partial sum moves on by one GPU, in the
-- second the full sums go round.
use velo_infra_playground.Prelude.{
  ℕ, suc, ◌+◌, ◌-◌, ◌*◌, ◌≤◌, ◌<◌, ◌≡◌, sym, ap, subst, ◌∙◌, inl, inr, true, false, ◌||◌, ltb, leb,
  nat_eq, nat_Eq, if◌then◌else◌, arith, Bool-cases, Eq-cases,
}
use velo_infra_playground.Nccl.Network.Ring.{prev}

-- Steps along the ring of n from b to i.
abbrev pub dist : ℕ → ℕ → ℕ → ℕ
dist n b i = if leb b i then i - b else i + n - b

-- The GPU d steps after b.
abbrev pub ahead : ℕ → ℕ → ℕ → ℕ
ahead n b d = if ltb (b + d) n then b + d else b + d - n

-- The block that GPU i sends in round k.
abbrev pub block : ℕ → ℕ → ℕ → ℕ
block n i k =
    if ltb k (n - 1)
    then (if leb k i then i - k else i + n - k)
    else (let s = k - (n - 1) in
        if nat_eq (suc i) (s + n) then 0 else if leb s (suc i) then suc i - s else suc i + n - s)

pub block-lt : (n i k : ℕ) → i < n → k < 2 * (n - 1) → block n i k < n
block-lt n i k h r = ground arith

-- The block that arrives at i in round k is the one that is so many steps behind it.
block_arrives_reduce :
    (n i k b : ℕ)
    → i < n
    → b < n
    → k < n - 1
    → nat_eq (block n (prev n i) k) b ≡ nat_eq (dist n b i) (suc k)
block_arrives_reduce n i k b h j r = ground arith

block_arrives_gather :
    (n i k b : ℕ)
    → i < n
    → b < n
    → n - 1 ≤ k
    → k < 2 * (n - 1)
    → nat_eq (block n (prev n i) k) b ≡ nat_eq (dist n b i) (k - (n - 1))
block_arrives_gather n i k b h j r q = ground arith

dist-lt : (n b i : ℕ) → i < n → b < n → dist n b i < n
dist-lt n b i h j = ground arith

dist-prev :
    (n b i : ℕ)
    → i < n
    → b < n
    → dist n b (prev n i) ≡ (if nat_eq (dist n b i) 0 then n - 1 else dist n b i - 1)
dist-prev n b i h j = ground arith

ahead-dist : (n b i : ℕ) → i < n → b < n → ahead n b (dist n b i) ≡ i
ahead-dist n b i h j = ground arith

-- What a GPU d steps behind the start of a block holds of it after k rounds: `part d` is the sum
-- of the block over d + 1 GPUs, `own` the GPU's own value.
abbrev held : {V : Type 0} → ℕ → ℕ → ℕ → V → (ℕ → V) → V
held n k d own part =
    if ltb k (n - 1)
    then (if leb d k then part d else own)
    else (if nat_eq d (n - 1) || ltb d (k - (n - 1)) then part (n - 1) else part d)

module _ {V : Type 0} (n d k : ℕ) (own : V) (part : ℕ → V) (d_lt : d < n) where
  held-own : k < n - 1 → nat_eq d (suc k) ≡ true → held n k d own part ≡ own
  held-own r e = ground arith

  held-reduced : k < n - 1 → nat_eq d (suc k) ≡ true → held n (suc k) d own part ≡ part (suc k)
  held-reduced r e = ground arith

  held-idle : k < n - 1 → nat_eq d (suc k) ≡ false → held n (suc k) d own part ≡ held n k d own part
  held-idle r e = ground arith

  held-gathered :
      n - 1 ≤ k → nat_eq d (k - (n - 1)) ≡ true → held n (suc k) d own part ≡ part (n - 1)
  held-gathered r e = ground arith

  held-quiet :
      n - 1 ≤ k → nat_eq d (k - (n - 1)) ≡ false → held n (suc k) d own part ≡ held n k d own part
  held-quiet r e = ground arith

  held-end : held n (2 * (n - 1)) d own part ≡ part (n - 1)
  held-end = ground arith

eq_of_test : {a b : ℕ} → nat_eq a b ≡ true → a ≡ b
eq_of_test e = ground arith

-- What the GPU before holds of the block that it sends.
held_sent_reduce :
    {V : Type 0} (n d k : ℕ) (own : V) (part : ℕ → V)
    → d < n
    → k < n - 1
    → nat_eq d (suc k) ≡ true
    → held n k (if nat_eq d 0 then n - 1 else d - 1) own part ≡ part k
held_sent_reduce n d k own part h r e = ground arith

held_sent_gather :
    {V : Type 0} (n d k : ℕ) (own : V) (part : ℕ → V)
    → d < n
    → n - 1 ≤ k
    → k < 2 * (n - 1)
    → nat_eq d (k - (n - 1)) ≡ true
    → held n k (if nat_eq d 0 then n - 1 else d - 1) own part ≡ part (n - 1)
held_sent_gather n d k own part h r q e = ground arith

module _ {V : Type 0} (add : V → V → V) (n : ℕ) (initial : ℕ → ℕ → V) where
  -- The sum of block b over the GPUs from b on, each GPU adding its own value on the left.
  unfoldable pub ring_sum : ℕ → ℕ → V
  ring_sum b ℕ.zero = initial b b
  ring_sum b (ℕ.suc d) = add (initial (ahead n b (suc d)) b) (ring_sum b d)

  -- What GPU i holds of block b after k rounds.
  unfoldable pub value : ℕ → ℕ → ℕ → V
  value k i b = held n k (dist n b i) (initial i b) (ring_sum b)

  -- The values of a block after a round, from those before it.
  abbrev combined : ℕ → ℕ → ℕ → V
  combined k i b =
      if ltb k (n - 1) then add (value k i b) (value k (prev n i) b) else value k (prev n i) b

  own_block : (b : ℕ) → 1 < n → b < n → value 0 b b ≡ initial b b
  unfolding value ring_sum
  own_block b h l = ground arith

  pub value-start : (i b : ℕ) → 1 < n → i < n → b < n → value 0 i b ≡ initial i b
  unfolding value ring_sum
  value-start i b h j l = elim (Eq-cases b i) [
    | inl e ↦ subst (λ (k : ℕ). value 0 k b ≡ initial k b) e (own_block b h l)
    | inr ne ↦ ground arith
  ]

  pub value-end : (i b : ℕ) → i < n → b < n → value (2 * (n - 1)) i b ≡ ring_sum b (n - 1)
  unfolding value
  value-end i b j l = held-end n (dist n b i) 0 (initial i b) (ring_sum b) (dist-lt n b i j l)

  module _ (k i b : ℕ) (i_lt : i < n) (b_lt : b < n) where
    abbrev d : ℕ
    d = dist n b i

    value-prev :
        value k (prev n i) b
        ≡ held n k (if nat_eq d 0 then n - 1 else d - 1) (initial (prev n i) b) (ring_sum b)
    unfolding value
    value-prev =
        ap (λ x. held n k x (initial (prev n i) b) (ring_sum b)) (dist-prev n b i i_lt b_lt)

    round-reduced :
        k < n - 1
        → nat_eq d (suc k) ≡ true
        → add (value k i b) (value k (prev n i) b) ≡ value (suc k) i b
    unfolding value ring_sum
    round-reduced r hit =
        let here : ahead n b (suc k) ≡ i =
          ap (ahead n b) (sym (eq_of_test hit)) ∙ ahead-dist n b i i_lt b_lt in
        ap (λ x. add x (value k (prev n i) b))
          (held-own n d k (initial i b) (ring_sum b) (dist-lt n b i i_lt b_lt) r hit)
        ∙ ap (add (initial i b)) (
            value-prev
            ∙ held_sent_reduce n d k (initial (prev n i) b) (ring_sum b) (dist-lt n b i i_lt b_lt) r
                hit)
        ∙ ap (λ j. add (initial j b) (ring_sum b k)) (sym here)
        ∙ sym (held-reduced n d k (initial i b) (ring_sum b) (dist-lt n b i i_lt b_lt) r hit)

    round-gathered :
        n - 1 ≤ k
        → k < 2 * (n - 1)
        → nat_eq d (k - (n - 1)) ≡ true
        → value k (prev n i) b ≡ value (suc k) i b
    unfolding value
    round-gathered r q hit =
        value-prev
        ∙ held_sent_gather n d k (initial (prev n i) b) (ring_sum b) (dist-lt n b i i_lt b_lt) r q
            hit
        ∙ sym (held-gathered n d k (initial i b) (ring_sum b) (dist-lt n b i i_lt b_lt) r hit)

    round-idle : k < n - 1 → nat_eq d (suc k) ≡ false → value k i b ≡ value (suc k) i b
    unfolding value
    round-idle r miss =
        sym (held-idle n d k (initial i b) (ring_sum b) (dist-lt n b i i_lt b_lt) r miss)

    round-quiet : n - 1 ≤ k → nat_eq d (k - (n - 1)) ≡ false → value k i b ≡ value (suc k) i b
    unfolding value
    round-quiet r miss =
        sym (held-quiet n d k (initial i b) (ring_sum b) (dist-lt n b i i_lt b_lt) r miss)

    round-early :
        k < n - 1
        → (if nat_eq d (suc k) then add (value k i b) (value k (prev n i) b) else value k i b)
          ≡ value (suc k) i b
    round-early r = elim (Bool-cases (nat_eq d (suc k))) [
      | inl hit ↦ rw hit (round-reduced r hit)
      | inr miss ↦ rw miss (round-idle r miss)
    ]

    round-late :
        n - 1 ≤ k
        → k < 2 * (n - 1)
        → (if nat_eq d (k - (n - 1)) then value k (prev n i) b else value k i b) ≡ value (suc k) i b
    round-late r q = elim (Bool-cases (nat_eq d (k - (n - 1)))) [
      | inl hit ↦ rw hit (round-gathered r q hit)
      | inr miss ↦ rw miss (round-quiet r miss)
    ]

    pub value-round :
        k < 2 * (n - 1)
        → (if nat_eq (block n (prev n i) k) b then combined k i b else value k i b)
          ≡ value (suc k) i b
    value-round q = elim (Bool-cases (ltb k (n - 1))) [
      | inl early ↦
          let r : k < n - 1 = below early in
          rw (block_arrives_reduce n i k b i_lt b_lt r, early) (round-early r)
      | inr late ↦
          let r : n - 1 ≤ k = not_below late in
          rw (block_arrives_gather n i k b i_lt b_lt r q, late) (round-late r q)
    ]
      where
        below : {x y : ℕ} → ltb x y ≡ true → x < y
        below e = ground arith

        not_below : {x y : ℕ} → ltb x y ≡ false → y ≤ x
        not_below e = ground arith

  -- Writing the combined value into the block that has arrived gives the values after the round.
  pub value-written :
      (k i b : ℕ)
      → k < 2 * (n - 1)
      → i < n
      → b < n
      → (if nat_eq (block n (prev n i) k) b
          then combined k i (block n (prev n i) k)
          else value k i b)
        ≡ value (suc k) i b
  value-written k i b r i_lt b_lt = elim (Bool-cases (nat_eq (block n (prev n i) k) b)) [
    | inl hit ↦
        rw hit (ap (combined k i) (eq_of_test hit) ∙ (rw hit at (value-round k i b i_lt b_lt r)))
    | inr miss ↦ rw miss ((rw miss at (value-round k i b i_lt b_lt r)))
  ]
