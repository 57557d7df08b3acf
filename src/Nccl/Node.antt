-- ===== src/Nccl/Node.antt =====
-- The ring of nccl-visualizer/main.go: `GPUNode`s that run freely, each sending to the next one's
-- channel of capacity one. The values are a parameter: the program uses `float64` and adds them.
pub mod Correct
pub mod Exact
pub mod Results
pub mod Sums
pub mod Total
use velo_infra_playground.Prelude.{
  ℕ, suc, ◌+◌, ◌-◌, ◌*◌, List, [], Option, none, some, ltb, if◌then◌else◌, Bool, true, false, ◌&&◌,
  get_elem?,
}
use velo_infra_playground.Prelude.Int.{ℤ, pos, rem}
use velo_infra_playground.Prelude.Words.{add64, sub64}
use velo_infra_playground.Nccl.Network.{Program, Worker, Net}
use velo_infra_playground.Nccl.Buffers.{load, store, tabulate}

pub record Message (V : Type 0) : Type 0 where
  pub step : ℤ
  pub chunk_index : ℤ
  pub value : V

-- The chunk that a node sends in its k-th round: the first n - 1 rounds are the reduce-scatter
-- loop, the others the all-gather loop with its own count of steps.
unfoldable pub send_index : ℕ → ℕ → ℕ → ℤ
send_index n id k =
    if ltb k (n - 1)
    then rem (add64 (sub64 (pos id) (pos k)) (pos n)) (pos n)
    else rem (add64 (sub64 (add64 (pos id) (pos 1)) (pos (k - (n - 1)))) (pos n)) (pos n)

-- The chunk that it receives.
unfoldable pub receive_index : ℕ → ℕ → ℕ → ℤ
receive_index n id k =
    if ltb k (n - 1)
    then rem (add64 (sub64 (sub64 (pos id) (pos k)) (pos 1)) (pos n)) (pos n)
    else rem (add64 (sub64 (pos id) (pos (k - (n - 1)))) (pos n)) (pos n)

module _ {V : Type 0} (add : V → V → V) (n : ℕ) where
  unfoldable pub send : ℕ → ℕ → List V → Option (Message V)
  send id k buffer = elim (load buffer (send_index n id k)) [
    | none ↦ none
    | some v ↦ some (record {
      step = pos (if ltb k (n - 1) then k else k - (n - 1));
      chunk_index = send_index n id k;
      value = v;
    })
  ]

  unfoldable pub receive : ℕ → ℕ → Message V → List V → Option (List V)
  receive id k message buffer =
      if ltb k (n - 1)
      then elim (load buffer (receive_index n id k)) [
        | none ↦ none
        | some own ↦ store buffer (receive_index n id k) (add own message.value)
      ]
      else store buffer (receive_index n id k) message.value

  abbrev pub ring : Program V (Message V)
  ring = record { size = n; capacity = 1; send = send; receive = receive }

  abbrev pub rounds : ℕ
  rounds = 2 * (n - 1)

-- The data that the program fills its nodes with: entry j of node i is j + 1, times ten once for
-- every node before it.
module _ {V : Type 0} (mul : V → V → V) (of_int : ℕ → V) where
  unfoldable pub scale : ℕ → V
  scale ℕ.zero = of_int 1
  scale (ℕ.suc i) = mul (scale i) (of_int 10)

  unfoldable pub gpu_data : ℕ → ℕ → V
  gpu_data i j = mul (of_int (j + 1)) (scale i)

-- Each node with its copy of the data, the channels empty.
unfoldable pub start : {V : Type 0} → ℕ → (ℕ → ℕ → V) → Net V (Message V)
start n initial = record {
  workers = λ i. record { buffer = tabulate n (initial i); done = 0; sent = false };
  inbox = λ i. [];
}

-- `expectedSum[j]`, the sum over the nodes in their order.
unfoldable pub expected_sum : {V : Type 0} → (V → V → V) → V → (ℕ → ℕ → V) → ℕ → ℕ → V
expected_sum add zero initial ℕ.zero j = zero
expected_sum add zero initial (ℕ.suc i) j = add (expected_sum add zero initial i j) (initial i j)

-- `expectedSum`.
abbrev pub expected_sums : {V : Type 0} → (V → V → V) → V → (ℕ → ℕ → V) → ℕ → List V
expected_sums add zero initial n = tabulate n (expected_sum add zero initial n)

-- Whether the first j entries are the expected ones, where no entry is missing.
unfoldable pub row_matches : {V : Type 0} → (V → V → Bool) → List V → List V → ℕ → Bool
row_matches same buffer expected ℕ.zero = true
row_matches same buffer expected (ℕ.suc j) = elim (get_elem? buffer j) [
  | none ↦ false
  | some v ↦ elim (get_elem? expected j) [
    | none ↦ false
    | some w ↦ same v w && row_matches same buffer expected j
  ]
]

-- `allSucceeded`, over the first i nodes.
unfoldable pub all_succeeded :
    {V : Type 0} → (V → V → Bool) → ℕ → Net V (Message V) → List V → ℕ → Bool
unfolding row_matches
all_succeeded same n net expected ℕ.zero = true
all_succeeded same n net expected (ℕ.suc i) =
    row_matches same (net.workers i).buffer expected n && all_succeeded same n net expected i
