-- ===== src/Nccl/Simulator/Tree/Goroutines.antt =====
-- A step of the tree with its goroutines one channel operation at a time (nccl-visualizer/
-- simulator.go): in the order of a schedule a GPU puts its next message into a channel, if there is
-- a place, or takes one out of its own, if there is one.
use velo_infra_playground.Prelude.{
  ℕ, suc, ◌-◌, ◌*◌, List, [], ◌∷◌, ◌++◌, length, Option, none, some, ltb, nat_eq, if◌then◌else◌,
}
use velo_infra_playground.Prelude.Int.{ℤ, pos, negsuc}
use velo_infra_playground.Nccl.Network.{update}
use velo_infra_playground.Nccl.Simulator.Types.{BlockMsg}
use velo_infra_playground.Nccl.Simulator.Tree.{depths, tree_gpu}
use velo_infra_playground.Nccl.Simulator.Tree.Run.{
  tree_sends, expected_count, reduce_values, copy_values,
}

-- How many messages `runTreeStep` of GPU `i` waits for.
unfoldable pub awaited : ℕ → ℕ → ℕ → ℕ
awaited n step i =
    let g = tree_gpu n i in
    let top = (depths n).max_depth in
    if ltb step top
    then (if nat_eq g.depth (top - step)
        then 0
        else if nat_eq g.depth (top - step - 1)
        then expected_count n (top - step) g.children
        else 0)
    else if ltb step (2 * top)
    then (if nat_eq g.depth (step - top)
        then 0
        else if nat_eq g.depth (suc (step - top))
        then 1
        else 0)
    else 0

-- What it makes of one: on the way up it adds the values, on the way down it copies them.
unfoldable pub absorb : {V : Type 0} → (V → V → V) → ℕ → ℕ → BlockMsg V → List V → Option (List V)
absorb add n step msg buffer =
    if ltb step (depths n).max_depth
    then reduce_values add buffer msg.values
    else some (copy_values buffer msg.values)

-- Within a step: what each GPU has still to send and to receive, its buffer, and its channel.
pub record Flight (V : Type 0) : Type 0 where
  pub outgoing : ℕ → List (BlockMsg V)
  pub waits_for : ℕ → ℕ
  pub held : ℕ → List V
  pub channels : ℕ → List (BlockMsg V)

abbrev pub take_off : {V : Type 0} → ℕ → ℕ → (ℕ → List V) → Flight V
take_off n step buffers = record {
  outgoing = λ i. tree_sends n step i (buffers i);
  waits_for = λ i. awaited n step i;
  held = buffers;
  channels = λ i. [];
}

-- A put into the channel of a GPU; a full channel makes the sender wait. There is no GPU of a
-- negative number.
unfoldable pub put :
    {V : Type 0} → ℕ → ℕ → BlockMsg V → List (BlockMsg V) → Flight V → ℤ → Option (Flight V)
put n i msg rest f (negsuc r) = none
put n i msg rest f (pos r) =
    if ltb (length (f.channels r)) (n * 2)
    then some (record f {
      outgoing = update f.outgoing i rest;
      channels = update f.channels r (f.channels r ++ (msg ∷ []));
    })
    else some f

-- A receipt, after which k more are waited for; `none` is the panic of a message that is too short.
unfoldable pub get :
    {V : Type 0} → (V → V → V) → ℕ → ℕ → ℕ → ℕ → Flight V → List (BlockMsg V) → Option (Flight V)
unfolding absorb
get add n step i k f [] = some f
get add n step i k f (msg ∷ rest) = elim (absorb add n step msg (f.held i)) [
  | none ↦ none
  | some buffer ↦ some (record f {
    waits_for = update f.waits_for i k;
    held = update f.held i buffer;
    channels = update f.channels i rest;
  })
]

-- The next operation of GPU `i`, by what is left to send and to receive; if nothing is, its step
-- has ended.
unfoldable pub act :
    {V : Type 0} → (V → V → V) → ℕ → ℕ → ℕ → Flight V → List (BlockMsg V) → ℕ → Option (Flight V)
unfolding put get
act add n step i f (msg ∷ rest) left = put n i msg rest f msg.receiver_id
act add n step i f [] ℕ.zero = some f
act add n step i f [] (ℕ.suc k) = get add n step i k f (f.channels i)

unfoldable pub fly : {V : Type 0} → (V → V → V) → ℕ → ℕ → List ℕ → Flight V → Option (Flight V)
unfolding act
fly add n step [] f = some f
fly add n step (i ∷ schedule) f = elim (act add n step i f (f.outgoing i) (f.waits_for i)) [
  | none ↦ none
  | some f' ↦ fly add n step schedule f'
]
