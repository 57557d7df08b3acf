-- ===== src/Nccl/Simulator/Tree/Downward.antt =====
-- A step on the way down: a GPU below the active depth takes its parent's buffer.
use mathlib.Core.Path.{fun_ext}
use velo_infra_playground.Prelude.{
  ℕ, suc, ◌-◌, ◌*◌, ◌/◌, ◌≤◌, ◌<◌, ◌≡◌, ◌≢◌, refl, sym, ap, ◌∙◌, inl, inr, List, [], ◌∷◌, ◌++◌, map,
  Bool, true, false, ◌&&◌, Option, some, ltb, nat_eq, nat_Eq, if◌then◌else◌, arith, Bool-cases,
  Eq-cases,
}
use velo_infra_playground.Nccl.Buffers.{tabulate_from, tabulate}
use velo_infra_playground.Nccl.Sums.{Shuffle, below_list}
use velo_infra_playground.Nccl.Simulator.Types.{Phase, BlockMsg}
use velo_infra_playground.Nccl.Simulator.Tree.{tree_gpu, children_upto}
use velo_infra_playground.Nccl.Simulator.Tree.Levels.{depth_up, depth_root}
use velo_infra_playground.Nccl.Simulator.Tree.Run.{
  message, tree_sends, copy_values, copy_one, tree_receives, is_to, addressed, incoming,
}
use velo_infra_playground.Nccl.Simulator.Tree.Delivery.{
  select, hangs, select_none, select_one, select-ext,
}
use velo_infra_playground.Nccl.Simulator.Tree.Upward.{depth_of, top_of}

-- Whether j, at depth d, sends to i.
abbrev pub sends_down : ℕ → ℕ → ℕ → ℕ → Bool
sends_down n d i j = nat_eq (depth_of n j) d && (ltb i n && hangs i j)

addressed-append :
    {V : Type 0} (i c : ℕ) (msg : ℕ → BlockMsg V) (xs : List ℕ)
    → ((j : ℕ) → is_to i (msg j).receiver_id ≡ nat_eq j i)
    → addressed i (map msg (xs ++ (c ∷ [])))
      ≡ addressed i (map msg xs) ++ (if nat_eq c i then msg c ∷ [] else [])
unfolding addressed
addressed-append i c msg [] h = rw (h c) refl
addressed-append i c msg (x ∷ xs) h =
    rw (addressed-append i c msg xs h)
      (elim (Bool-cases (is_to i (msg x).receiver_id)) [ inl e ↦ rw e refl | inr e ↦ rw e refl ])

addressed-children :
    {V : Type 0} (i j m : ℕ) (msg : ℕ → BlockMsg V)
    → ((c : ℕ) → is_to i (msg c).receiver_id ≡ nat_eq c i)
    → addressed i (map msg (children_upto m j)) ≡ (if ltb i m && hangs i j then msg i ∷ [] else [])
unfolding addressed children_upto
addressed-children i j ℕ.zero msg h = ground arith
addressed-children i j (ℕ.suc m) msg h = elim (Bool-cases (hangs m j)) [
  | inl e ↦ rw e (
      addressed-append i m msg (children_upto m j) h
      ∙ rw (addressed-children i j m msg h) (last m e))
  | inr e ↦ rw e (addressed-children i j m msg h ∙ ground arith)
]
  where
    last :
        (m : ℕ)
        → hangs m j ≡ true
        → (if ltb i m && hangs i j then msg i ∷ [] else [])
            ++ (if nat_eq m i then msg m ∷ [] else [])
          ≡ (if ltb i (suc m) && hangs i j then msg i ∷ [] else [])
    last m e = ground arith

copy_values-tabulate_from :
    {V : Type 0} (s m : ℕ) (f g : ℕ → V)
    → copy_values (tabulate_from s m f) (tabulate_from s m g) ≡ tabulate_from s m g
unfolding copy_values tabulate_from
copy_values-tabulate_from s ℕ.zero f g = refl
copy_values-tabulate_from s (ℕ.suc m) f g =
    ap (λ r. g s ∷ r) (copy_values-tabulate_from (suc s) m f g)

module _ {V : Type 0} (n k : ℕ) (turned : top_of n ≤ k) (down : k < 2 * top_of n) where
  pub addressed-tree_sends :
      (i j : ℕ) (buffer : List V)
      → addressed i (tree_sends n k j buffer) ≡ (
          if sends_down n (k - top_of n) i j
          then message j k Phase.downward_broadcast buffer i ∷ []
          else [])
  unfolding addressed tree_sends tree_gpu
  addressed-tree_sends i j buffer =
      ground
        (arith, addressed-children i j n (message j k Phase.downward_broadcast buffer) (λ c. refl))

  pub incoming-select :
      (buffers : ℕ → List V) (i : ℕ) (order : List ℕ)
      → incoming n k buffers i order
        ≡ map
            (λ j. message j k Phase.downward_broadcast (buffers j) i)
            (select (sends_down n (k - top_of n) i) order)
  unfolding incoming
  incoming-select buffers i [] = refl
  incoming-select buffers i (j ∷ order) =
      rw (addressed-tree_sends i j (buffers j), incoming-select buffers i order)
        (elim (Bool-cases (sends_down n (k - top_of n) i j)) [
          | inl e ↦ rw e refl
          | inr e ↦ rw e refl
        ])

-- The values after the step.
abbrev pub sunk : {V : Type 0} → ℕ → ℕ → (ℕ → ℕ → V) → ℕ → ℕ → V
sunk n k values i b =
    if nat_eq (depth_of n i) (suc (k - top_of n)) then values ((i - 1) / 2) b else values i b

-- Only a GPU below the depth d has a parent there, and only one.
pub no_parent : (n d i j : ℕ) → depth_of n i ≢ suc d → sends_down n d i j ≡ false
no_parent n d ℕ.zero j other = ground arith
no_parent n d (ℕ.suc i) j other = ground (arith, depth_up n i)

pub one_parent :
    (n d i j : ℕ)
    → suc i < n
    → depth_of n (suc i) ≡ suc d
    → sends_down n d (suc i) j ≡ nat_eq j (i / 2)
one_parent n d i j lt level = ground (arith, depth_up n i lt)

module _ {V : Type 0} (add : V → V → V) (n k : ℕ) (turned : top_of n ≤ k) (down : k < 2 * top_of n)
    (values : ℕ → ℕ → V) where
  module _ (i : ℕ) (i_lt : i < n) (order : List ℕ) (every : Shuffle order (below_list n)) where
    abbrev received : Option (List V × List (BlockMsg V))
    received =
        tree_receives add n k i (incoming n k (λ j. tabulate n (values j)) i order)
          (tabulate n (values i))

    silent :
        depth_of n i ≢ suc (k - top_of n) → incoming n k (λ j. tabulate n (values j)) i order ≡ []
    silent other =
        incoming-select n k turned down (λ j. tabulate n (values j)) i order
        ∙ ap (map _) (
            select_none (sends_down n (k - top_of n) i) n every
              (λ j lt. no_parent n (k - top_of n) i j other))

    received-other : depth_of n i ≢ suc (k - top_of n) → received ≡ some (tabulate n (values i), [])
    unfolding tree_receives tree_gpu
    received-other other = rw (silent other, tree_receives) (ground arith)

  received-child :
      (i : ℕ) (i_lt : suc i < n) (order : List ℕ) (every : Shuffle order (below_list n))
      → depth_of n (suc i) ≡ suc (k - top_of n)
      → received (suc i) i_lt order every ≡ some (tabulate n (values (i / 2)), [])
  unfolding tree_receives tree_gpu copy_one
  received-child i i_lt order every level =
      let sent : select (sends_down n (k - top_of n) (suc i)) order ≡ i / 2 ∷ [] =
        select-ext _ _ order (λ j. one_parent n (k - top_of n) i j i_lt level)
        ∙ select_one (i / 2) n (omega arith) every in
      rw
        (
          incoming-select n k turned down (λ j. tabulate n (values j)) (suc i) order,
          sent,
          tree_receives,
        )
        (ground (arith, copy_values-tabulate_from 0 n (values (suc i)) (values (i / 2))))

  pub receives_down :
      (i : ℕ) (i_lt : i < n) (order : List ℕ) (every : Shuffle order (below_list n))
      → received i i_lt order every ≡ some (tabulate n (sunk n k values i), [])
  receives_down ℕ.zero i_lt order every =
      received-other 0 i_lt order every (λ e. elsewhere (sym (depth_root n i_lt) ∙ e))
      ∙ ap (λ f. some (tabulate n f, [])) (fun_ext (λ b. ground (arith, depth_root n i_lt)))
    where
      elsewhere : {d : ℕ} → 0 ≡ suc d → ⊥
      elsewhere e = omega arith
  receives_down (ℕ.suc i) i_lt order every =
      elim (Eq-cases (depth_of n (suc i)) (suc (k - top_of n))) [
        | inl level ↦
            received-child i i_lt order every level
            ∙ ap (λ f. some (tabulate n f, [])) (fun_ext (λ b. ground arith))
        | inr other ↦
            received-other (suc i) i_lt order every other
            ∙ ap (λ f. some (tabulate n f, [])) (fun_ext (λ b. ground arith))
      ]
