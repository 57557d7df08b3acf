-- ===== src/Nccl/Buffers.antt =====
-- Go slices indexed by an `int`, and slices written out entry by entry.
use velo_infra_playground.Prelude.{
  ℕ, suc, ◌+◌, ◌≤◌, ◌<◌, ◌≡◌, refl, ap, ◌∙◌, List, [], ◌∷◌, true, Option, none, some, ltb, nat_eq,
  length, get_elem?, set, All, if◌then◌else◌, arith,
}
use velo_infra_playground.Prelude.Int.{ℤ, pos, negsuc}

module _ {V : Type 0} where
  -- `buffer[i]`; `none` is the panic of an index out of range.
  abbrev pub load : List V → ℤ → Option V
  load buffer (pos i) = get_elem? buffer i
  load buffer (negsuc i) = none

  -- `buffer[i] = v`.
  abbrev pub store : List V → ℤ → V → Option (List V)
  store buffer (pos i) v = if ltb i (length buffer) then some (set buffer i v) else none
  store buffer (negsuc i) v = none

  -- The slice with the entries f 0, …, f (n - 1).
  unfoldable pub tabulate_from : ℕ → ℕ → (ℕ → V) → List V
  tabulate_from j ℕ.zero f = []
  tabulate_from j (ℕ.suc n) f = f j ∷ tabulate_from (suc j) n f

  abbrev pub tabulate : ℕ → (ℕ → V) → List V
  tabulate n f = tabulate_from 0 n f

  pub length-tabulate_from : (j n : ℕ) (f : ℕ → V) → length (tabulate_from j n f) ≡ n
  unfolding tabulate_from
  length-tabulate_from j ℕ.zero f = refl
  length-tabulate_from j (ℕ.suc n) f = ap suc (length-tabulate_from (suc j) n f)

  get_elem?-tabulate_from :
      (j n i : ℕ) (f : ℕ → V) → i < n → get_elem? (tabulate_from j n f) i ≡ some (f (j + i))
  unfolding tabulate_from
  get_elem?-tabulate_from j ℕ.zero i f h = absurd (omega arith)
  get_elem?-tabulate_from j (ℕ.suc n) ℕ.zero f h = ap (λ k. some (f k)) (omega arith)
  get_elem?-tabulate_from j (ℕ.suc n) (ℕ.suc i) f h =
      get_elem?-tabulate_from (suc j) n i f (omega arith) ∙ ap (λ k. some (f k)) (omega arith)

  -- Two slices with the same entries are the same.
  tabulate_from-ext :
      (j n : ℕ) (f g : ℕ → V)
      → ((i : ℕ) → j ≤ i → i < j + n → f i ≡ g i)
      → tabulate_from j n f ≡ tabulate_from j n g
  unfolding tabulate_from
  tabulate_from-ext j ℕ.zero f g h = refl
  tabulate_from-ext j (ℕ.suc n) f g h =
      ap (λ x. x ∷ tabulate_from (suc j) n f) (h j (omega arith) (omega arith))
      ∙ ap (λ l. g j ∷ l)
          (tabulate_from-ext (suc j) n f g (λ i le lt. h i (omega arith) (omega arith)))

  set-tabulate_from :
      (j n i : ℕ) (f : ℕ → V) (v : V)
      → set (tabulate_from j n f) i v ≡ tabulate_from j n (λ k. if nat_eq (j + i) k then v else f k)
  unfolding tabulate_from
  set-tabulate_from j ℕ.zero i f v = refl
  set-tabulate_from j (ℕ.suc n) ℕ.zero f v =
      ap (λ x. x ∷ tabulate_from (suc j) n f) (ground arith)
      ∙ ap (λ l. (if nat_eq (j + 0) j then v else f j) ∷ l)
          (tabulate_from-ext (suc j) n f _ (λ k le lt. ground arith))
  set-tabulate_from j (ℕ.suc n) (ℕ.suc i) f v =
      ap (λ l. f j ∷ l)
        (set-tabulate_from (suc j) n i f v
          ∙ tabulate_from-ext (suc j) n _ _ (λ k le lt. ground arith))
      ∙ ap (λ x. x ∷ tabulate_from (suc j) n (λ k. if nat_eq (j + suc i) k then v else f k))
          (ground arith)

  in_range : (n i : ℕ) (f : ℕ → V) → i < n → ltb i (length (tabulate n f)) ≡ true
  in_range n i f h = rw (length-tabulate_from 0 n f) (ground arith)

  pub load-tabulate : (n i : ℕ) (f : ℕ → V) → i < n → load (tabulate n f) (pos i) ≡ some (f i)
  load-tabulate n i f h = get_elem?-tabulate_from 0 n i f h ∙ ap (λ k. some (f k)) (omega arith)

  pub store-tabulate :
      (n i : ℕ) (f g : ℕ → V) (v : V)
      → i < n
      → ((k : ℕ) → k < n → (if nat_eq i k then v else f k) ≡ g k)
      → store (tabulate n f) (pos i) v ≡ some (tabulate n g)
  store-tabulate n i f g v h same = rw (in_range n i f h) (
      ap some (
        set-tabulate_from 0 n i f v
        ∙ tabulate_from-ext 0 n _ g (λ k le lt. ground (arith, same k))))

  pub tabulate-ext :
      (n : ℕ) (f g : ℕ → V) → ((i : ℕ) → i < n → f i ≡ g i) → tabulate n f ≡ tabulate n g
  tabulate-ext n f g h = tabulate_from-ext 0 n f g (λ i le lt. h i (omega arith))

All-tabulate_from :
    {A : Type 0} (P : A → Type 0) (j n : ℕ) (f : ℕ → A)
    → ((i : ℕ) → i < j + n → P (f i))
    → All P (tabulate_from j n f)
unfolding tabulate_from
All-tabulate_from P j ℕ.zero f h = tt
All-tabulate_from P j (ℕ.suc n) f h =
    (h j (omega arith), All-tabulate_from P (suc j) n f (λ i lt. h i (omega arith)))

pub All-tabulate :
    {A : Type 0} (P : A → Type 0) (n : ℕ) (f : ℕ → A)
    → ((i : ℕ) → i < n → P (f i))
    → All P (tabulate n f)
All-tabulate P n f h = All-tabulate_from P 0 n f (λ i lt. h i (omega arith))
