-- ===== src/Nccl/Simulator/Tree/Schedules.antt =====
-- Every schedule of the goroutines keeps what is known of a step on its way.
use velo_infra_playground.Prelude.{
  ℕ, suc, ◌*◌, ◌<◌, ◌≡◌, refl, subst, inl, inr, List, [], ◌∷◌, length, All, some, some_inj,
  none-ne-some, Option-cases, Bool-cases, ltb, nat_Eq,
}
use velo_infra_playground.Prelude.Int.{ℤ, pos, negsuc}
use velo_infra_playground.Nccl.Simulator.Types.{BlockMsg}
use velo_infra_playground.Nccl.Simulator.Tree.Upward.{top_of}
use velo_infra_playground.Nccl.Simulator.Tree.Goroutines.{Flight, absorb, put, get, act, fly}
use velo_infra_playground.Nccl.Simulator.Tree.Interleaving.{Sound, got-Sound, put-Sound}

module _ {V : Type 0} (add : V → V → V) (n k : ℕ) (buffers : ℕ → List V) where
  put-keeps :
      (down : k < 2 * top_of n) (f f' : Flight V)
      → Sound add n k buffers f
      → (j : ℕ) → j < n
      → (msg : BlockMsg V) (rest : List (BlockMsg V)) → f.outgoing j ≡ msg ∷ rest
      → (r : ℤ) → msg.receiver_id ≡ r
      → put n j msg rest f r ≡ some f'
      → Sound add n k buffers f'
  unfolding put
  put-keeps down f f' sound j j_lt msg rest next_out (negsuc r) to_r e = absurd (none-ne-some e)
  put-keeps down f f' sound j j_lt msg rest next_out (pos r) to_r e =
      elim (Bool-cases (ltb (length (f.channels r)) (n * 2))) [
        | inl place ↦
            subst (Sound add n k buffers) (some_inj (rw place at e))
              (put-Sound add n k buffers down f sound j j_lt msg rest r to_r next_out)
        | inr full ↦ subst (Sound add n k buffers) (some_inj (rw full at e)) sound
      ]

  get-keeps :
      (f f' : Flight V)
      → Sound add n k buffers f
      → (i m : ℕ) (channel : List (BlockMsg V)) → f.channels i ≡ channel
      → f.waits_for i ≡ suc m
      → get add n k i m f channel ≡ some f'
      → Sound add n k buffers f'
  unfolding get
  get-keeps f f' sound i m [] empty some_left e = subst (Sound add n k buffers) (some_inj e) sound
  get-keeps f f' sound i m (msg ∷ rest) full some_left e =
      elim (Option-cases (absorb add n k msg (f.held i))) [
        | inl short ↦ absurd (none-ne-some (rw (short, get) at e))
        | inr (held, fits) ↦
            subst (Sound add n k buffers) (some_inj (rw (fits, get) at e))
              (got-Sound add n k buffers f sound i m msg rest held full some_left fits)
      ]

  act-keeps :
      (down : k < 2 * top_of n) (f f' : Flight V)
      → Sound add n k buffers f
      → (i : ℕ) → i < n
      → (out : List (BlockMsg V)) (left : ℕ) → f.outgoing i ≡ out
      → f.waits_for i ≡ left
      → act add n k i f out left ≡ some f'
      → Sound add n k buffers f'
  unfolding act
  act-keeps down f f' sound i i_lt (msg ∷ rest) left next_out waits e =
      put-keeps down f f' sound i i_lt msg rest next_out msg.receiver_id refl e
  act-keeps down f f' sound i i_lt [] ℕ.zero next_out waits e =
      subst (Sound add n k buffers) (some_inj e) sound
  act-keeps down f f' sound i i_lt [] (ℕ.suc m) next_out waits e =
      get-keeps f f' sound i m (f.channels i) refl waits e

  pub fly-Sound :
      (down : k < 2 * top_of n) (schedule : List ℕ) (f f' : Flight V)
      → Sound add n k buffers f
      → All (λ i. i < n) schedule
      → fly add n k schedule f ≡ some f'
      → Sound add n k buffers f'
  unfolding fly
  fly-Sound down [] f f' sound real e = subst (Sound add n k buffers) (some_inj e) sound
  fly-Sound down (i ∷ schedule) f f' sound real e =
      elim (Option-cases (act add n k i f (f.outgoing i) (f.waits_for i))) [
        | inl panics ↦ absurd (none-ne-some (rw (panics, fly) at e))
        | inr (g, moved) ↦
            fly-Sound down schedule g f'
              (act-keeps down f g sound i real.0 (f.outgoing i) (f.waits_for i) refl refl moved)
              real.1 (rw (moved, fly) at e)
      ]
