-- ===== src/Nccl/Simulator/Tree/Levels.antt =====
-- The depths that the walk sets are the levels of the tree.
use velo_infra_playground.Prelude.{
  ℕ, suc, ◌+◌, ◌/◌, ◌≤◌, ◌<◌, ◌≡◌, ◌≢◌, sym, subst, inl, inr, List, [], ◌∷◌, All, ltb,
  if◌then◌else◌, arith, Bool-cases, nat_Eq, Eq-cases,
}
use velo_infra_playground.Nccl.Network.{update}
use velo_infra_playground.Nccl.Simulator.Tree.{
  children_upto, Depths, visit, each, compute_depth, depths,
}
use velo_infra_playground.Nccl.Simulator.Tree.Children.{
  Level, Level-unique, Level-exists, Under, Under-le, Under-root, first_step, Elem,
  children_upto-Elem, Hangs-Level, children_upto-Hangs,
}

-- A number's depth is set, and counted in the greatest one.
record Right (t : Depths) (j : ℕ) : Type 0 where
  level : Level j (t.depth j)
  counted : t.depth j ≤ t.max_depth

-- The greatest depth is the level of some number below n.
abbrev Attained : ℕ → Depths → Type 0
Attained n t = (k : ℕ) × (k < n) × Level k t.max_depth

visit_self : (id d : ℕ) (t : Depths) → Level id d → Right (visit id d t) id
unfolding visit
visit_self id d t l = record {
  level = subst (Level id) (sym (at_self id d t)) l;
  counted = ground arith;
}
  where
    at_self : (i k : ℕ) (t : Depths) → update t.depth i k i ≡ k
    at_self i k t = ground arith

visit-Right : (id d j : ℕ) (t : Depths) → Level id d → Right t j → Right (visit id d t) j
unfolding visit
visit-Right id d j t l r = elim (Eq-cases id j) [
  | inl e ↦ subst (Right (visit id d t)) e (visit_self id d t l)
  | inr ne ↦ record {
    level = subst (Level j) (sym (elsewhere id d j t ne)) r.level;
    counted = omega (arith, elsewhere id d j t ne, grows t.max_depth d, r.counted);
  }
]
  where
    elsewhere : (i k j : ℕ) (t : Depths) → i ≢ j → update t.depth i k j ≡ t.depth j
    elsewhere i k j t ne = ground arith

    grows : (a b : ℕ) → a ≤ (if ltb a b then b else a)
    grows a b = ground arith

visit-Attained :
    (n id d : ℕ) (t : Depths) → Level id d → id < n → Attained n t → Attained n (visit id d t)
unfolding visit
visit-Attained n id d t l id_lt (k, k_lt, m) = elim (Bool-cases (ltb t.max_depth d)) [
  | inl e ↦ rw e (id, id_lt, l)
  | inr e ↦ rw e (k, k_lt, m)
]

-- What every round of a loop keeps, the loop keeps.
each-keeps :
    (P : Depths → Type 0) (f : ℕ → Depths → Depths) (xs : List ℕ)
    → All (λ c. (t : Depths) → P t → P (f c t)) xs
    → (t : Depths) → P t
    → P (each f xs t)
unfolding each
each-keeps P f [] h t p = p
each-keeps P f (c ∷ cs) h t p = each-keeps P f cs h.1 (f c t) (h.0 t p)

-- And what one round brings about besides, holds after the loop.
each-reaches :
    (P : Depths → Type 0) (f : ℕ → Depths → Depths) (xs : List ℕ) (c : ℕ)
    → All (λ b. (t : Depths) → P t → P (f b t)) xs
    → Elem c xs
    → ((t : Depths) → P (f c t))
    → (t : Depths) → P (each f xs t)
unfolding each
each-reaches P f [] c h e g t = absurd e
each-reaches P f (x ∷ xs) c h (inl e) g t =
    each-keeps P f xs h.1 (f x t) (subst (λ k. P (f k t)) (sym e) (g t))
each-reaches P f (x ∷ xs) c h (inr e) g t = each-reaches P f xs c h.1 e g (f x t)

All-map : {P Q : ℕ → Type 0} (xs : List ℕ) → ((c : ℕ) → P c → Q c) → All P xs → All Q xs
All-map [] f h = tt
All-map (x ∷ xs) f h = (f x h.0, All-map xs f h.1)

module _ (n : ℕ) where
  -- The walk keeps what each visit keeps.
  walk-keeps :
      (P : Depths → Type 0)
      → ((id d : ℕ) → Level id d → id < n → (t : Depths) → P t → P (visit id d t))
      → (fuel id d : ℕ) → Level id d
      → id < n
      → (t : Depths) → P t
      → P (compute_depth (children_upto n) fuel id d t)
  unfolding compute_depth
  walk-keeps P keep ℕ.zero id d l id_lt t p = p
  walk-keeps P keep (ℕ.suc fuel) id d l id_lt t p =
      each-keeps P _ (children_upto n id)
        (All-map (children_upto n id)
          (λ c h s q. walk-keeps P keep fuel c (suc d) (Hangs-Level l h) h.0 s q)
          (children_upto-Hangs n n id (omega arith)))
        (visit id d t) (keep id d l id_lt t p)

  walk-reaches :
      (fuel id d j : ℕ)
      → Level id d
      → id < n
      → n ≤ fuel + id
      → Under id j
      → j < n
      → (t : Depths) → Right (compute_depth (children_upto n) fuel id d t) j
  unfolding compute_depth
  walk-reaches ℕ.zero id d j l id_lt enough u j_lt t = absurd (omega (arith, Under-le u))
  walk-reaches (ℕ.suc fuel) id d j l id_lt enough u j_lt t = elim (first_step u) [
    | inl e ↦ subst (Right (compute_depth (children_upto n) (suc fuel) id d t)) e (
        each-keeps (λ s. Right s id) _ (children_upto n id) (rounds id) (visit id d t)
          (visit_self id d t l))
    | inr (i, half, v) ↦
        each-reaches (λ s. Right s j) _ (children_upto n id) (suc i) (rounds j)
          (subst (λ k. Elem (suc i) (children_upto n k)) half
            (children_upto-Elem n i (omega (arith, Under-le v))))
          (λ s.
            walk-reaches fuel (suc i) (suc d) j (Level.child (subst (λ k. Level k d) (sym half) l))
              (omega (arith, Under-le v)) (omega (arith, half)) v j_lt s)
          (visit id d t)
  ]
    where
      rounds :
          (k : ℕ)
          → All
              (λ c.
                (s : Depths)
                → Right s k
                → Right (compute_depth (children_upto n) fuel c (suc d) s) k)
              (children_upto n id)
      rounds k =
          All-map (children_upto n id)
            (λ c h s q.
              walk-keeps (λ x. Right x k) (λ i e l' _ x r. visit-Right i e k x l' r) fuel c (suc d)
                (Hangs-Level l h) h.0 s q)
            (children_upto-Hangs n n id (omega arith))

-- The walk sets the depth of every GPU to its level in the tree, and the greatest depth to the
-- greatest of these.
pub depths-Level :
    (n j : ℕ)
    → j < n
    → Level j ((depths n).depth j)
      × ((depths n).depth j ≤ (depths n).max_depth)
      × ((k : ℕ) × (k < n) × ((depths n).depth k ≡ (depths n).max_depth))
unfolding depths
depths-Level n j j_lt =
    let start : Depths = record { depth = λ i. 0; nodes_by_depth = λ d. []; max_depth = 0 } in
    let r : (i : ℕ) → i < n → Right (depths n) i = λ i i_lt.
      walk-reaches n n 0 0 i Level.root (omega arith) (omega arith)
        (Under-root (Level-exists n i i_lt).1) i_lt start in
    let (k, k_lt, top) =
      walk-keeps n (Attained n) (λ id d l id_lt t a. visit-Attained n id d t l id_lt a) n 0 0
        Level.root (omega arith) start (0, omega arith, Level.root) in
    ((r j j_lt).level, (r j j_lt).counted, (k, k_lt, Level-unique (r k k_lt).level top))

-- A child is one level below its parent.
pub depth_up : (n i : ℕ) → suc i < n → (depths n).depth (suc i) ≡ suc ((depths n).depth (i / 2))
depth_up n i h =
    Level-unique (depths-Level n (suc i) h).0 (Level.child (depths-Level n (i / 2) (omega arith)).0)

pub depth_root : (n : ℕ) → 0 < n → (depths n).depth 0 ≡ 0
depth_root n h = Level-unique (depths-Level n 0 h).0 Level.root
