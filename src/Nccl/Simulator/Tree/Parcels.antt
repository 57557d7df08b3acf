-- ===== src/Nccl/Simulator/Tree/Parcels.antt =====
-- The messages of a step of the tree one by one: which a GPU sends to another, and what a GPU makes
-- of those that it has taken.
use velo_infra_playground.Prelude.{
  ℕ, suc, ◌-◌, ◌*◌, ◌≤◌, ◌<◌, ◌≡◌, refl, sym, ap, subst, ◌∙◌, inl, inr, List, [], ◌∷◌, ◌++◌, length,
  true, false, Option, none, some, some_inj, none-ne-some, Option-cases, Bool-cases, ltb, nat_eq,
  nat_Eq, if◌then◌else◌, arith,
}
use velo_infra_playground.Prelude.Int.{pos}
use velo_infra_playground.Nccl.Simulator.Types.{BlockMsg}
use velo_infra_playground.Nccl.Simulator.Tree.{tree_gpu}
use velo_infra_playground.Nccl.Simulator.Tree.Run.{
  tree_sends, tree_receives, reduce_all, copy_one, addressed, incoming, is_to,
}
use velo_infra_playground.Nccl.Simulator.Tree.Upward
use velo_infra_playground.Nccl.Simulator.Tree.Upward.{top_of, sends_up}
use velo_infra_playground.Nccl.Simulator.Tree.Downward
use velo_infra_playground.Nccl.Simulator.Tree.Downward.{sends_down}
use velo_infra_playground.Nccl.Simulator.Tree.Goroutines.{awaited, absorb}
use velo_infra_playground.Nccl.Simulator.Tree.Reorder.{append_assoc}

-- The buffer after these messages.
abbrev pub absorbed :
    {V : Type 0} → (V → V → V) → ℕ → ℕ → List (BlockMsg V) → List V → Option (List V)
absorbed add n k [] buffer = some buffer
absorbed add n k (msg ∷ msgs) buffer = elim (absorb add n k msg buffer) [
  | none ↦ none
  | some buffer' ↦ absorbed add n k msgs buffer'
]

pub absorbed-append :
    {V : Type 0} (add : V → V → V) (n k : ℕ) (msgs : List (BlockMsg V)) (msg : BlockMsg V)
    (buffer held new : List V)
    → absorbed add n k msgs buffer ≡ some held
    → absorb add n k msg held ≡ some new
    → absorbed add n k (msgs ++ (msg ∷ [])) buffer ≡ some new
absorbed-append add n k [] msg buffer held new before last =
    rw (some_inj before) (rw (last, absorbed) refl)
absorbed-append add n k (m ∷ msgs) msg buffer held new before last =
    elim (Option-cases (absorb add n k m buffer)) [
      | inl short ↦ absurd (none-ne-some (rw (short, absorbed) at before))
      | inr (b, first) ↦
          rw (first, absorbed)
            (absorbed-append add n k msgs msg b held new (rw (first, absorbed) at before) last)
    ]

pub incoming-append :
    {V : Type 0} (n k : ℕ) (buffers : ℕ → List V) (i : ℕ) (xs ys : List ℕ)
    → incoming n k buffers i (xs ++ ys) ≡ incoming n k buffers i xs ++ incoming n k buffers i ys
unfolding incoming
incoming-append n k buffers i [] ys = refl
incoming-append n k buffers i (x ∷ xs) ys =
    ap (λ l. addressed i (tree_sends n k x (buffers x)) ++ l) (incoming-append n k buffers i xs ys)
    ∙ sym (append_assoc (addressed i (tree_sends n k x (buffers x))) _ _)

pub addressed-to :
    {V : Type 0} (i r : ℕ) (msg : BlockMsg V) (rest : List (BlockMsg V))
    → msg.receiver_id ≡ pos r
    → addressed i (msg ∷ rest) ≡ (if nat_eq r i then msg ∷ addressed i rest else addressed i rest)
unfolding addressed
addressed-to i r msg rest to_r =
    ap (λ x. if is_to i x then msg ∷ addressed i rest else addressed i rest) to_r

-- No GPU sends two messages to another.
pub single :
    {V : Type 0} (n k i j : ℕ) (buffer : List V)
    → k < 2 * top_of n
    → length (addressed i (tree_sends n k j buffer)) ≤ 1
single n k i j buffer down = elim (Bool-cases (ltb k (top_of n))) [
  | inl up ↦
      rw (Upward.addressed-tree_sends n k (ground arith) i j buffer)
        (elim (Bool-cases (sends_up n (top_of n - k) i j)) [
          | inl e ↦ rw e (omega arith)
          | inr e ↦ rw e (omega arith)
        ])
  | inr turned ↦
      rw (Downward.addressed-tree_sends n k (ground arith) down i j buffer)
        (elim (Bool-cases (sends_down n (k - top_of n) i j)) [
          | inl e ↦ rw e (omega arith)
          | inr e ↦ rw e (omega arith)
        ])
]

module _ {V : Type 0} (add : V → V → V) (n k : ℕ) where
  reduce_all-absorbed :
      (msgs rest : List (BlockMsg V)) (buffer held : List V)
      → ltb k (top_of n) ≡ true
      → absorbed add n k msgs buffer ≡ some held
      → reduce_all add (length msgs) (msgs ++ rest) buffer ≡ some (held, rest)
  unfolding reduce_all absorb
  reduce_all-absorbed [] rest buffer held up e = ap (λ b. some (b, rest)) (some_inj e)
  reduce_all-absorbed (msg ∷ msgs) rest buffer held up e =
      elim (Option-cases (absorb add n k msg buffer)) [
        | inl short ↦ absurd (none-ne-some (rw (short, absorbed) at e))
        | inr (b, fits) ↦
            rw (rw (up, absorb) at fits, reduce_all)
              (reduce_all-absorbed msgs rest b held up (rw (fits, absorbed) at e))
      ]

  none-absorbed :
      (msgs rest : List (BlockMsg V)) (buffer held : List V)
      → length msgs ≡ 0
      → absorbed add n k msgs buffer ≡ some held
      → ◌≡◌ {A = Option (List V × List (BlockMsg V))}
          (some (buffer, msgs ++ rest))
          (some (held, rest))
  none-absorbed [] rest buffer held count e = ap (λ b. some (b, rest)) (some_inj e)
  none-absorbed (msg ∷ msgs) rest buffer held count e = absurd (omega arith)

  copy_one-absorbed :
      (msgs rest : List (BlockMsg V)) (buffer held : List V)
      → ltb k (top_of n) ≡ false
      → length msgs ≡ 1
      → absorbed add n k msgs buffer ≡ some held
      → copy_one (msgs ++ rest) buffer ≡ some (held, rest)
  unfolding copy_one absorb
  copy_one-absorbed [] rest buffer held turned count e = absurd (omega arith)
  copy_one-absorbed (msg ∷ []) rest buffer held turned count e =
      ap (λ b. some (b, rest)) (some_inj (rw (turned, absorbed, absorb) at e))
  copy_one-absorbed (msg ∷ m ∷ msgs) rest buffer held turned count e = absurd (omega arith)

  -- What a GPU makes of a channel that begins with the messages it has taken.
  pub tree_receives-absorbed :
      (i : ℕ) (msgs rest : List (BlockMsg V)) (buffer held : List V)
      → length msgs ≡ awaited n k i
      → absorbed add n k msgs buffer ≡ some held
      → tree_receives add n k i (msgs ++ rest) buffer ≡ some (held, rest)
  unfolding tree_receives awaited
  tree_receives-absorbed i msgs rest buffer held count e = elim (Bool-cases (ltb k (top_of n))) [
    | inl up ↦ elim (Bool-cases (nat_eq d (top_of n - k))) [
      | inl sends ↦
          rw (up, tree_receives) (rw sends (nothing (count ∙ rw (up, awaited) (rw sends refl))))
      | inr other ↦ elim (Bool-cases (nat_eq d (top_of n - k - 1))) [
        | inl parent ↦
            rw (up, tree_receives)
              (rw (other, parent)
                (subst (λ m. reduce_all add m (msgs ++ rest) buffer ≡ some (held, rest))
                  (count ∙ rw (up, awaited) (rw (other, parent) refl))
                  (reduce_all-absorbed msgs rest buffer held up e)))
        | inr idle ↦
            rw (up, tree_receives)
              (rw (other, idle) (nothing (count ∙ rw (up, awaited) (rw (other, idle) refl))))
      ]
    ]
    | inr turned ↦ elim (Bool-cases (ltb k (2 * top_of n))) [
      | inr over ↦
          rw (turned, over, tree_receives) (nothing (count ∙ rw (turned, over, awaited) refl))
      | inl down ↦ elim (Bool-cases (nat_eq d (k - top_of n))) [
        | inl sends ↦
            rw (turned, down, tree_receives)
              (rw sends (nothing (count ∙ rw (turned, down, awaited) (rw sends refl))))
        | inr other ↦ elim (Bool-cases (nat_eq d (suc (k - top_of n)))) [
          | inl child ↦
              rw (turned, down, tree_receives)
                (rw (other, child)
                  (copy_one-absorbed msgs rest buffer held turned
                    (count ∙ rw (turned, down, awaited) (rw (other, child) refl)) e))
          | inr idle ↦
              rw (turned, down, tree_receives)
                (rw (other, idle)
                  (nothing (count ∙ rw (turned, down, awaited) (rw (other, idle) refl))))
        ]
      ]
    ]
  ]
    where
      d : ℕ
      d = (tree_gpu n i).depth

      nothing :
          length msgs ≡ 0
          → ◌≡◌ {A = Option (List V × List (BlockMsg V))}
              (some (buffer, msgs ++ rest))
              (some (held, rest))
      nothing none_taken = none-absorbed msgs rest buffer held none_taken e
