-- ===== src/Nccl/Renderer/Panels.antt =====
-- The panels of the dashboard that may panic: that they are drawn, and how many lines they have.
use velo_infra_playground.Prelude.{
  ℕ, suc, ◌+◌, ◌≤◌, ◌<◌, ◌≡◌, refl, ap, ◌∙◌, inl, inr, either, not, ◌&&◌, List, [], ◌∷◌, length,
  length-append, get_elem?, All, String, Bool, Option, some, ltb, Bool-cases, arith,
}
use velo_infra_playground.Prelude.Int.{ℤ, pos}
use velo_infra_playground.Prelude.Words.{sub64-pos}
use velo_infra_playground.Nccl.Simulator.Types.{GpuState, SimulationState}
use velo_infra_playground.Nccl.Simulator.Logs.{ShownState}
use velo_infra_playground.Nccl.Renderer.{bar_of, progress_bar, draw_header}
use velo_infra_playground.Nccl.Renderer.Table.{
  value_part, buffer_parts, gpu_row, gpu_rows, draw_buffer_states, is_active, is_ring,
}

get_elem?-below :
    {A : Type 0} (xs : List A) (i : ℕ) → i < length xs → (x : A) × (get_elem? xs i ≡ some x)
get_elem?-below [] i h = absurd (omega arith)
get_elem?-below (x ∷ xs) ℕ.zero h = (x, refl)
get_elem?-below (x ∷ xs) (ℕ.suc i) h = get_elem?-below xs i (omega arith)

abbrev Drawn : {A : Type 0} → Option A → Type 0
Drawn {A} r = (x : A) × (r ≡ some x)

module _ {V : Type 0} (shown : V → String) (differs : V → V → Bool)
    (state : SimulationState V) where
  value_part-Drawn :
      (gpu : GpuState V) (initial : List V) (idx : ℕ) (val : V)
      → idx < length initial
      → Drawn (value_part shown differs state gpu initial idx val)
  unfolding value_part
  value_part-Drawn gpu initial idx val h =
      let (init, found) = get_elem?-below initial idx h in
      either Drawn
        (is_ring state.topology && not state.finished && is_active idx gpu.active_block_idx)
        (_, refl) (rw (found) (_, refl))

  buffer_parts-Drawn :
      (gpu : GpuState V) (initial : List V) (idx : ℕ) (vals : List V)
      → idx + length vals ≤ length initial
      → Drawn (buffer_parts shown differs state gpu initial idx vals)
  unfolding buffer_parts
  buffer_parts-Drawn gpu initial idx [] h = ([], refl)
  buffer_parts-Drawn gpu initial idx (val ∷ vals) h =
      let (text, first) = value_part-Drawn gpu initial idx val (omega arith) in
      let (texts, others) = buffer_parts-Drawn gpu initial (suc idx) vals (omega arith) in
      (text ∷ texts, rw (first, others, buffer_parts) refl)

  gpu_row-Drawn :
      (initial_buffers : ℕ → List V) (gpu : GpuState V)
      → length gpu.buffer ≤ length (initial_buffers gpu.id)
      → Drawn (gpu_row shown differs state initial_buffers gpu)
  unfolding gpu_row
  gpu_row-Drawn initial_buffers gpu h =
      let (parts, drawn) =
        buffer_parts-Drawn gpu (initial_buffers gpu.id) 0 gpu.buffer (omega arith) in
      rw (drawn, gpu_row) (_, refl)

  gpu_rows-drawn :
      (initial_buffers : ℕ → List V) (gpus : List (GpuState V))
      → All (λ (g : GpuState V). length g.buffer ≤ length (initial_buffers g.id)) gpus
      → (rows : List String) × (gpu_rows shown differs state initial_buffers gpus ≡ some rows)
        × (length rows ≡ length gpus)
  unfolding gpu_rows
  gpu_rows-drawn initial_buffers [] h = ([], refl, refl)
  gpu_rows-drawn initial_buffers (gpu ∷ gpus) h =
      let (row, first) = gpu_row-Drawn initial_buffers gpu h.0 in
      let (rows, others, long) = gpu_rows-drawn initial_buffers gpus h.1 in
      (row ∷ rows, rw (first, others, gpu_rows) refl, ap suc long)

-- The table is drawn if no buffer is longer than the GPU's initial one, with one line per GPU
-- between four others.
pub draw_buffer_states-drawn :
    {V : Type 0} (shown : V → String) (differs : V → V → Bool) (view : ShownState V)
    → All (λ (g : GpuState V). length g.buffer ≤ length (view.initial_buffers g.id)) view.state.gpus
    → (table : List String) × (draw_buffer_states shown differs view ≡ some table)
      × (length table ≡ length view.state.gpus + 4)
unfolding draw_buffer_states
draw_buffer_states-drawn shown differs view h =
    let (rows, drawn, long) =
      gpu_rows-drawn shown differs view.state view.initial_buffers view.state.gpus h in
    rw (drawn, draw_buffer_states)
      (_, refl, ap (λ k. suc (suc (suc k))) (length-append rows _) ∙ omega (arith, long))

-- What Go's `int(float64(step) / float64(max) * float64(30))` is known to be.
abbrev pub Fills : (ℕ → ℕ → ℤ) → Type 0
Fills filled_of =
    (step max : ℕ) → step ≤ max → 0 < max → (k : ℕ) × (filled_of step max ≡ pos k) × (k ≤ 30)

bar_of-Drawn : (k : ℕ) → k ≤ 30 → Drawn (bar_of (pos k))
unfolding bar_of
bar_of-Drawn k h = rw (sub64-pos 30 k h (omega arith), bar_of) (_, refl)

progress_bar-Drawn :
    (filled_of : ℕ → ℕ → ℤ) (step max : ℕ)
    → Fills filled_of
    → step ≤ max
    → Drawn (progress_bar filled_of step max)
unfolding progress_bar
progress_bar-Drawn filled_of step max fills h = elim (Bool-cases (ltb 0 max)) [
  | inr none_left ↦ rw (none_left, progress_bar) (_, refl)
  | inl many ↦
      let (k, filled, at_most) = fills step max h (ground arith) in
      rw (many, filled, progress_bar) (bar_of-Drawn k at_most)
]

pub draw_header-drawn :
    {V : Type 0} (filled_of : ℕ → ℕ → ℤ) (state : SimulationState V)
    → Fills filled_of
    → state.step ≤ state.max_steps
    → (header : List String) × (draw_header filled_of state ≡ some header) × (length header ≡ 5)
unfolding draw_header
draw_header-drawn filled_of state fills h =
    let (bar, drawn) = progress_bar-Drawn filled_of state.step state.max_steps fills h in
    rw (drawn, draw_header) (_, refl, refl)
