-- ===== src/Nccl/Renderer/Returns.antt =====
-- The dashboard of a simulation: that it is drawn, and how many lines it has.
use velo_infra_playground.Prelude.{
  ℕ, suc, ◌+◌, ◌^◌, ◌≤◌, ◌<◌, ◌≡◌, refl, ap, ◌∙◌, inl, inr, List, [], ◌∷◌, ◌++◌, length,
  length-append, All, String, Bool, Bool-cases, some, if◌then◌else◌, arith,
}
use velo_infra_playground.Prelude.Int.{ℤ}
use velo_infra_playground.Nccl.Buffers.{tabulate, length-tabulate_from}
use velo_infra_playground.Nccl.Simulator.{new_simulator}
use velo_infra_playground.Nccl.Simulator.Types.{Topology, GpuState, SimulationState}
use velo_infra_playground.Nccl.Simulator.Simulated.{Simulated}
use velo_infra_playground.Nccl.Simulator.Logs.{SimLog, ShownState}
use velo_infra_playground.Nccl.Simulator.Settled.{new_simulator-Settled, simulate-Settled}
use velo_infra_playground.Nccl.Simulator.Tree.Shape.{new_tree_simulator-Shape, simulate_tree-Shape}
use velo_infra_playground.Nccl.Renderer.{render_dashboard, draw_controls}
use velo_infra_playground.Nccl.Renderer.Diagram.{
  draw_topology, draw_ring_topology, draw_tree_topology,
}
use velo_infra_playground.Nccl.Renderer.Recent.{draw_logs-recent}
use velo_infra_playground.Nccl.Renderer.Panels.{Fills, draw_header-drawn, draw_buffer_states-drawn}

abbrev diagram_height : Topology → ℕ
diagram_height Topology.ring = 11
diagram_height Topology.tree = 17

-- How many texts the dashboard writes, all but the first of them a line: as many in every state of
-- a simulation, but for one more at the end.
abbrev pub height : {V : Type 0} → ℕ → SimulationState V → ℕ
height n state = 17 + n + diagram_height state.topology + (if state.finished then 2 else 1)

length-draw_topology :
    {V : Type 0} (state : SimulationState V)
    → length (draw_topology state) ≡ diagram_height state.topology
unfolding draw_topology draw_ring_topology draw_tree_topology
length-draw_topology state = go state.topology refl
  where
    go : (t : Topology) → state.topology ≡ t → length (draw_topology state) ≡ diagram_height t
    go Topology.ring e = rw (e, draw_topology) refl
    go Topology.tree e = rw (e, draw_topology) refl

length-draw_controls :
    {V : Type 0} (state : SimulationState V)
    → length (draw_controls state) ≡ (if state.finished then 2 else 1)
unfolding draw_controls
length-draw_controls state = elim (Bool-cases state.finished) [
  | inl over ↦ rw (over, draw_controls) refl
  | inr running ↦ rw (running, draw_controls) refl
]

length-stacked :
    (a b c d e : List String)
    → length (a ++ (b ++ (c ++ (d ++ e))))
      ≡ length a + (length b + (length c + (length d + length e)))
length-stacked a b c d e =
    length-append a _
    ∙ ap (λ k. length a + k)
        (length-append b _
          ∙ ap (λ k. length b + k) (length-append c _ ∙ ap (λ k. length c + k) (length-append d e)))

module _ {V : Type 0} (filled_of : ℕ → ℕ → ℤ) (fills : Fills filled_of) (shown : V → String)
    (differs : V → V → Bool) where
  -- The dashboard is drawn if the steps are within their number and no buffer is longer than the
  -- initial one.
  render_dashboard-drawn :
      (n : ℕ) (view : ShownState V)
      → view.state.step ≤ view.state.max_steps
      → All
          (λ (g : GpuState V). length g.buffer ≤ length (view.initial_buffers g.id))
          view.state.gpus
      → length view.state.gpus ≡ n
      → (screen : List String) × (render_dashboard filled_of shown differs view ≡ some screen)
        × (length screen ≡ height n view.state)
  unfolding render_dashboard
  render_dashboard-drawn n view within fits count =
      let (header, head, head_long) = draw_header-drawn filled_of view.state fills within in
      let (table, body, body_long) = draw_buffer_states-drawn shown differs view fits in
      let (before, recent, console, whole, short, foot, made, foot_long) =
        draw_logs-recent view.logs in
      rw (head, body, foot, render_dashboard)
        (
          _,
          refl,
          ap suc (length-stacked header (draw_topology view.state) table console _)
              ∙ omega (
                arith,
                head_long,
                body_long,
                foot_long,
                count,
                length-draw_topology view.state,
                length-draw_controls view.state,
              ),
        )

All-map :
    {A : Type 0} {P Q : A → Type 0} → ((a : A) → P a → Q a) → (xs : List A) → All P xs → All Q xs
All-map f [] h = tt
All-map f (x ∷ xs) h = (f x h.0, All-map f xs h.1)

module _ {V : Type 0} (add : V → V → V) (n : ℕ) (many : 1 < n) (small : n < 2 ^ 61)
    (initial : ℕ → ℕ → V) where
  fits :
      (gpus : List (GpuState V))
      → All (λ (g : GpuState V). length g.buffer ≡ n) gpus
      → All (λ (g : GpuState V). length g.buffer ≤ length (tabulate n (initial g.id))) gpus
  fits gpus =
      All-map (λ (g : GpuState V) e. omega (arith, e, length-tabulate_from 0 n (initial g.id))) gpus

  -- What the simulator's steps keep that the dashboard needs.
  Simulated-bounds :
      (state : SimulationState V)
      → Simulated add n initial state
      → (state.step ≤ state.max_steps)
        × All (λ (g : GpuState V). length g.buffer ≡ n) state.gpus
        × (length state.gpus ≡ n)
  Simulated-bounds state (Simulated.of_ring schedules real sim reached) =
      let (settled, ends) =
        simulate-Settled add n initial many small schedules (new_simulator n initial) sim
          (new_simulator-Settled add n initial many small) real reached in
      (omega (arith, settled.within, settled.total), settled.shown.0, settled.shown.1)
  Simulated-bounds state (Simulated.of_tree steps sim reached) =
      let shape =
        simulate_tree-Shape add n steps _ sim (new_tree_simulator-Shape add n initial) reached in
      (omega (arith, shape.within, shape.total), shape.shown.0, shape.shown.1)

  -- After any steps that returned, of a ring or of a tree of more than one and less than 2^61 GPUs,
  -- and with any log, the dashboard is drawn without a panic, with the same number of lines every
  -- time but for one more when the simulation has ended. The division of the progress bar gives at
  -- most 30 where the step is at most the number of steps.
  pub render_dashboard-Simulated :
      (filled_of : ℕ → ℕ → ℤ)
      → Fills filled_of
      → (shown : V → String) (differs : V → V → Bool) (state : SimulationState V)
      → Simulated add n initial state
      → (logs : List SimLog)
      → (screen : List String) × (render_dashboard filled_of shown differs
            (record { state = state; initial_buffers = λ i. tabulate n (initial i); logs = logs })
          ≡ some screen)
        × (length screen ≡ height n state)
  render_dashboard-Simulated filled_of fills shown differs state reached logs =
      let (within, sizes, count) = Simulated-bounds state reached in
      render_dashboard-drawn filled_of fills shown differs n _ within (fits state.gpus sizes) count
