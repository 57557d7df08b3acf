-- ===== src/Nccl/Simulator/Settled.antt =====
-- The simulator between two steps, and that a step which returns leads from one such state to the
-- next.
use velo_infra_playground.Prelude.{
  ℕ, suc, ◌+◌, ◌-◌, ◌*◌, ◌^◌, ◌≤◌, ◌<◌, ◌≡◌, ◌⊎◌, refl, sym, ap, subst, ◌∙◌, inl, inr, List, [],
  ◌∷◌, All, Bool, none, some, true, false, leb, ◌&&◌, if◌then◌else◌, arith, Bool-cases, nat_eq,
  nat_Eq, length, none-ne-some, some_inj, Option-cases,
}
use velo_infra_playground.Nccl.Network.{Net, run}
use velo_infra_playground.Nccl.Network.Follows.{Inv, run-Inv}
use velo_infra_playground.Nccl.Network.Below.{Below}
use velo_infra_playground.Nccl.Network.Limit.{run-done}
use velo_infra_playground.Nccl.Buffers.{tabulate-ext, length-tabulate_from, All-tabulate}
use velo_infra_playground.Nccl.AllReduce.{value-start}
use velo_infra_playground.Nccl.Simulator.{
  ring, ring_gpu, Simulator, new_simulator, update_state, all_done, step, simulate,
}
use velo_infra_playground.Nccl.Simulator.Types.{BlockMsg, SimulationState, GpuState, Topology}
use velo_infra_playground.Nccl.Simulator.View.{snapshot}
use velo_infra_playground.Nccl.Simulator.Correct.{rounds, buffers, letters, ring-Runs}

and_true : {a b : Bool} → (a && b) ≡ true → (a ≡ true) × (b ≡ true)
and_true {a = true} e = (refl, e)
and_true {a = false} e = cc

all_done-at :
    {V M : Type 0} (n limit i : ℕ) (net : Net V M)
    → i < n
    → all_done n limit net ≡ true
    → limit ≤ (net.workers i).done
unfolding all_done
all_done-at ℕ.zero limit i net h e = absurd (omega arith)
all_done-at (ℕ.suc n) limit i net h e = elim (Bool-cases (nat_eq i n)) [
  | inl here ↦
      let last : leb limit (net.workers n).done ≡ true = (and_true e).0 in
      subst (λ (k : ℕ). limit ≤ (net.workers k).done) (same here) (from_test last)
  | inr below ↦ all_done-at n limit i net (ground arith) (and_true e).1
]
  where
    same : {a b : ℕ} → nat_eq a b ≡ true → b ≡ a
    same q = ground arith

    from_test : {a b : ℕ} → leb a b ≡ true → a ≤ b
    from_test q = ground arith

pub all_done-all :
    {V M : Type 0} (n limit : ℕ) (net : Net V M)
    → Below (λ i. limit ≤ (net.workers i).done) n
    → all_done n limit net ≡ true
unfolding all_done
all_done-all ℕ.zero limit net h = refl
all_done-all (ℕ.suc n) limit net h = rw (to_test h.0) (all_done-all n limit net h.1)
  where
    to_test : {a b : ℕ} → a ≤ b → leb a b ≡ true
    to_test l = ground arith

module _ {V : Type 0} (add : V → V → V) (n : ℕ) (initial : ℕ → ℕ → V) (many : 1 < n)
    (small : n < 2 ^ 61) where
  -- Between two steps every goroutine has done as many rounds as the simulator counts, and the
  -- simulator has ended exactly if these are all.
  pub record Settled (sim : Simulator V) : Type 0 where
    pub follows :
        Inv
          (ring add n)
          (rounds add n initial small)
          (buffers add n initial small)
          (letters add n initial small)
          sim.net
    pub in_step : (i : ℕ) → i < n → (sim.net.workers i).done ≡ sim.state.step
    pub within : sim.state.step ≤ 2 * (n - 1)
    pub ends : sim.state.finished ≡ leb (2 * (n - 1)) sim.state.step
    pub topology : sim.state.topology ≡ Topology.ring
    pub total : sim.state.max_steps ≡ 2 * (n - 1)
    pub shown :
        All (λ (g : GpuState V). length g.buffer ≡ n) sim.state.gpus × (length sim.state.gpus ≡ n)

  update_state-finished :
      (net : Net V (BlockMsg V)) (state : SimulationState V)
      → state.finished ≡ false
      → (update_state n (ring_gpu n) net state).finished ≡ leb (2 * (n - 1)) state.step
  unfolding update_state
  update_state-finished net state running = ground arith

  update_state-shown :
      (net : Net V (BlockMsg V)) (state : SimulationState V)
      → Inv
          (ring add n)
          (rounds add n initial small)
          (buffers add n initial small)
          (letters add n initial small)
          net
      → All (λ (g : GpuState V). length g.buffer ≡ n) (update_state n (ring_gpu n) net state).gpus
        × (length (update_state n (ring_gpu n) net state).gpus ≡ n)
  unfolding update_state snapshot
  update_state-shown net state follows = (
    All-tabulate _ n _ (λ i i_lt. ap length (follows i i_lt).buffer ∙ length-tabulate_from 0 n _),
    length-tabulate_from 0 n _,
  )

  new_simulator-follows :
      Inv
        (ring add n)
        (rounds add n initial small)
        (buffers add n initial small)
        (letters add n initial small)
        (new_simulator n initial).net
  unfolding new_simulator
  new_simulator-follows = λ i i_lt. record {
    waiting = 0;
    buffer = tabulate-ext n _ _ (λ b b_lt. sym (value-start add n initial i b many i_lt b_lt));
    inbox = refl;
    counted = refl;
  }

  pub new_simulator-Settled : Settled (new_simulator n initial)
  unfolding new_simulator update_state
  new_simulator-Settled = record {
    follows = new_simulator-follows;
    in_step = λ i i_lt. refl;
    within = omega arith;
    ends = ground arith;
    topology = refl;
    total = refl;
    shown = update_state-shown (new_simulator n initial).net _ new_simulator-follows;
  }

  module _ (sim : Simulator V) (settled : Settled sim) (running : sim.state.finished ≡ false)
      (schedule : List ℕ) (real : All (λ i. i < n) schedule) where
    pub early : suc sim.state.step ≤ 2 * (n - 1)
    early = ground (arith, settled.ends)

    abbrev moved_net : Net V (BlockMsg V)
    moved_net = run (ring add n) (suc sim.state.step) schedule sim.net

    abbrev pub moved : Simulator V
    moved = record {
      net = moved_net;
      state =
          update_state n (ring_gpu n) moved_net (record sim.state { step = suc sim.state.step });
    }

    pub moved-follows :
        Inv
          (ring add n)
          (rounds add n initial small)
          (buffers add n initial small)
          (letters add n initial small)
          moved_net
    moved-follows =
        run-Inv (ring add n) (rounds add n initial small) _ _
          (ring-Runs add n initial small (omega arith)) (suc sim.state.step) early schedule real
          sim.net settled.follows

    moved-Settled : all_done n (suc sim.state.step) moved_net ≡ true → Settled moved
    unfolding update_state
    moved-Settled over = record {
      follows = moved-follows;
      in_step = λ i i_lt. omega (
        arith,
        all_done-at n (suc sim.state.step) i moved_net i_lt over,
        run-done (ring add n) (suc sim.state.step) schedule i sim.net
            (omega (arith, settled.in_step i i_lt)),
      );
      within = early;
      ends =
          update_state-finished moved_net (record sim.state { step = suc sim.state.step }) running;
      topology = settled.topology;
      total = settled.total;
      shown =
          update_state-shown moved_net (record sim.state { step = suc sim.state.step })
            moved-follows;
    }

    pub step-moved :
        all_done n (suc sim.state.step) moved_net ≡ true
        → step add n schedule sim ≡ some (moved, if moved.state.finished then false else true)
    unfolding step update_state
    step-moved over = rw (running, step) (rw over refl)

    step-waits : all_done n (suc sim.state.step) moved_net ≡ false → step add n schedule sim ≡ none
    unfolding step
    step-waits open_round = rw (running, step) (rw open_round refl)

  pub step-over :
      (sim : Simulator V) (schedule : List ℕ)
      → sim.state.finished ≡ true
      → step add n schedule sim ≡ some (sim, false)
  unfolding step
  step-over sim schedule over = rw (over, step) refl

  -- After a step that returns, the simulator is settled again, and has counted it or had ended.
  step-Settled :
      (sim t : Simulator V) (more : Bool) (schedule : List ℕ)
      → Settled sim
      → All (λ i. i < n) schedule
      → step add n schedule sim ≡ some (t, more)
      → Settled t
        × ((t.state.step ≡ suc sim.state.step) ⊎ ((sim.state.finished ≡ true) × (sim ≡ t)))
  unfolding update_state
  step-Settled sim t more schedule settled real e = elim (Bool-cases sim.state.finished) [
    | inl over ↦
        let same : sim ≡ t =
          ap (λ (x : Simulator V × Bool). x.0) (some_inj (sym (step-over sim schedule over) ∙ e)) in
        (subst Settled same settled, inr (over, same))
    | inr running ↦
        elim (Bool-cases
          (all_done n (suc sim.state.step) (moved_net sim settled running schedule real))) [
            | inl round_over ↦
                let same : moved sim settled running schedule real ≡ t =
                  ap (λ (x : Simulator V × Bool). x.0)
                    (some_inj
                      (sym (step-moved sim settled running schedule real round_over) ∙ e)) in
                (
                  subst Settled same (moved-Settled sim settled running schedule real round_over),
                  inl (ap (λ (x : Simulator V). x.state.step) (sym same)),
                )
            | inr open_round ↦
                absurd
                  (none-ne-some (sym (step-waits sim settled running schedule real open_round) ∙ e))
          ]
  ]

  pub simulate-Settled :
      (schedules : List (List ℕ)) (sim t : Simulator V)
      → Settled sim
      → All (λ s. All (λ i. i < n) s) schedules
      → simulate add n schedules sim ≡ some t
      → Settled t × (t.state.finished ≡ leb (2 * (n - 1)) (sim.state.step + length schedules))
  unfolding simulate
  simulate-Settled [] sim t settled real e =
      let same : sim ≡ t = some_inj e in
      (
        subst Settled same settled,
        subst (λ (x : Simulator V). x.state.finished ≡ leb (2 * (n - 1)) (sim.state.step + 0)) same
            (settled.ends ∙ ap (leb (2 * (n - 1))) (omega arith)),
      )
  simulate-Settled (schedule ∷ schedules) sim t settled real e =
      elim (Option-cases (step add n schedule sim)) [
        | inl waits ↦ absurd (none-ne-some (rw (waits, simulate) at e))
        | inr ((sim', more), returned) ↦
            let (settled', counted) = step-Settled sim sim' more schedule settled real.0 returned in
            let (over, ends) =
              simulate-Settled schedules sim' t settled' real.1 (rw (returned, simulate) at e) in
            (over, ends ∙ count sim sim' settled settled' (length schedules) counted)
      ]
    where
      both : (r x y k : ℕ) → leb r x ≡ true → x ≡ y → leb r (y + k) ≡ leb r (x + suc k)
      both r x y k p q = ground arith

      count :
          (a b : Simulator V)
          → Settled a
          → Settled b
          → (k : ℕ) → (b.state.step ≡ suc a.state.step) ⊎ ((a.state.finished ≡ true) × (a ≡ b))
          → leb (2 * (n - 1)) (b.state.step + k) ≡ leb (2 * (n - 1)) (a.state.step + suc k)
      count a b sa sb k (inl p) = ap (leb (2 * (n - 1))) (omega arith)
      count a b sa sb k (inr (p, q)) =
          both (2 * (n - 1)) _ _ k (sym (sa.ends) ∙ p) (ap (λ (x : Simulator V). x.state.step) q)
