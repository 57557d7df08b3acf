-- ===== src/Mcp/Engine.antt =====
-- The diagnostics engine (mcp-server/diagnostics.go). The Docker and Kubernetes clients are outside:
-- what they answer is a parameter, with the text of an error in place of the error. Lengths count
-- characters, which are bytes in the ASCII texts that the program cuts.
pub mod Text
pub mod Mocks
pub mod Logs
pub mod Search
pub mod Panics
pub mod Contract
use velo_infra_playground.Prelude.{
  ℕ, String, List, [], ◌∷◌, ◌++◌, map, Bool, true, false, ◌||◌, Option, none, some, if◌then◌else◌,
  ◌==◌, string_Eq,
}
use velo_infra_playground.Prelude.Int.{ℤ}
use velo_infra_playground.Prelude.Text.{concat, show_int}
use velo_infra_playground.Prelude.Text.Layout.{pad, join}
use Text.{rule, truncate, prefix?, trim_slash, trim_space}
use Mocks.{mock_list_containers, mock_tail_logs, mock_list_pods}
use Logs.{Answer, demultiplex}

-- What a client answers.
pub data Reply (A : Type 0) : Type 0 where
  reply : A → Reply A
  failure : String → Reply A

pub record Port : Type 0 where
  pub public_port : ℤ
  pub private_port : ℤ
  pub kind : String

pub record Container : Type 0 where
  pub id : String
  pub names : List String
  pub image : String
  pub status : String
  pub ports : List Port

pub record Pod : Type 0 where
  pub name : String
  pub namespace : String
  pub phase : String
  pub pod_ip : String
  pub node_name : String

-- A log is the sequence of answers that its reader gives.
pub record Docker : Type 0 where
  pub container_list : Reply (List Container)
  pub container_logs : String → String → Reply (List Answer)

pub record Kube : Type 0 where
  pub pods : String → Reply (List Pod)

pub record DiagnosticsEngine : Type 0 where
  pub force_mock : Bool
  pub docker : Option Docker
  pub kube : Option Kube

-- How the start of a client may end: it cannot be made, or its first call fails, or it is there.
pub data Probe (C : Type 0) : Type 0 where
  no_client : Probe C
  unreachable : Probe C
  connected : C → Probe C

abbrev pub client_of : {C : Type 0} → Probe C → Option C
client_of no_client = none
client_of unreachable = none
client_of (connected c) = some c

unfoldable pub new_diagnostics_engine : Bool → Probe Docker → Probe Kube → DiagnosticsEngine
new_diagnostics_engine force docker kube =
    if force
    then record { force_mock = true; docker = none; kube = none }
    else record { force_mock = false; docker = client_of docker; kube = client_of kube }

-- The results of a query: a text, for logs as its bytes, an error, or a panic.
pub data Outcome : Type 0 where
  answer : String → Outcome
  answer_bytes : List ℕ → Outcome
  error : String → Outcome
  panic : Outcome

ports_text : List Port → String
ports_text ports = trim_space (
    concat (
      map
        (λ (p : Port).
          concat
            (show_int p.public_port ∷ "->" ∷ show_int p.private_port ∷ "/" ∷ p.kind ∷ " " ∷ []))
        ports))

container_row : Container → String → String
unfolding ports_text
container_row c short = concat (
    pad 20 short
    ∷ " | "
    ∷ pad 30 (join ", " c.names)
    ∷ " | "
    ∷ pad 12 (truncate c.image 12)
    ∷ " | "
    ∷ pad 15 c.status
    ∷ " | "
    ∷ pad 15 (ports_text c.ports)
    ∷ "\n"
    ∷ [])

-- The loop over the containers; `none` is the panic of `c.ID[:12]` on a shorter id.
unfoldable pub container_rows : List Container → Option String
unfolding container_row
container_rows [] = some ""
container_rows (c ∷ cs) =
    let rest = container_rows cs in
    elim (prefix? c.id 12) [
      | none ↦ none
      | some short ↦ elim rest [
        | none ↦ none
        | some rows ↦ some (concat (container_row c short ∷ rows ∷ []))
      ]
    ]

container_header : String
container_header = concat (
    pad 20 "CONTAINER ID"
    ∷ " | "
    ∷ pad 30 "NAMES"
    ∷ " | "
    ∷ pad 12 "IMAGE"
    ∷ " | "
    ∷ pad 15 "STATUS"
    ∷ " | "
    ∷ pad 15 "PORTS"
    ∷ "\n"
    ∷ rule 100
    ∷ "\n"
    ∷ [])

live_list_containers : Docker → Outcome
unfolding container_header
live_list_containers docker = elim docker.container_list [
  | failure e ↦ Outcome.error (concat ("failed to list Docker containers: " ∷ e ∷ []))
  | reply [] ↦ Outcome.answer "No Docker containers found in the local runtime."
  | reply (c ∷ cs) ↦ elim (container_rows (c ∷ cs)) [
    | none ↦ Outcome.panic
    | some rows ↦ Outcome.answer (concat (container_header ∷ rows ∷ []))
  ]
]

unfoldable pub list_containers : DiagnosticsEngine → Outcome
unfolding live_list_containers
list_containers e = if e.force_mock then Outcome.answer mock_list_containers else elim e.docker [
  | none ↦ Outcome.answer mock_list_containers
  | some docker ↦ live_list_containers docker
]

-- Whether one of the names, or the container's id, is the one that is looked for; `none` is a panic.
unfoldable pub named : String → String → List String → Option Bool
named name id [] = some false
named name id (n ∷ ns) =
    let rest = named name id ns in
    if trim_slash n == name then some true else elim (prefix? id 12) [
      | none ↦ none
      | some short ↦ if short == name || id == name then some true else rest
    ]

-- The id of the first container that fits, or "".
unfoldable pub find_container : String → List Container → Option String
find_container name [] = some ""
find_container name (c ∷ cs) =
    let rest = find_container name cs in
    elim (named name c.id c.names) [
      | none ↦ none
      | some found ↦ if found then (if c.id == "" then rest else some c.id) else rest
    ]

live_tail_logs : Docker → String → ℤ → Outcome
live_tail_logs docker name lines = elim docker.container_list [
  | failure e ↦ Outcome.error (concat ("failed to search containers: " ∷ e ∷ []))
  | reply containers ↦ elim (find_container name containers) [
    | none ↦ Outcome.panic
    | some target ↦
        if target == ""
        then Outcome.error (concat ("container '" ∷ name ∷ "' not found" ∷ []))
        else elim (docker.container_logs target (show_int lines)) [
          | failure e ↦ Outcome.error (concat ("failed to retrieve container logs: " ∷ e ∷ []))
          | reply answers ↦ Outcome.answer_bytes (demultiplex answers)
        ]
  ]
]

unfoldable pub tail_logs : DiagnosticsEngine → String → ℤ → Outcome
unfolding live_tail_logs
tail_logs e name lines =
    if e.force_mock then Outcome.answer (mock_tail_logs name lines) else elim e.docker [
      | none ↦ Outcome.answer (mock_tail_logs name lines)
      | some docker ↦ live_tail_logs docker name lines
    ]

pod_row : String → String → String → String → String → String
pod_row name namespace status ip node = concat (
    pad 35 name
    ∷ " | "
    ∷ pad 12 namespace
    ∷ " | "
    ∷ pad 12 status
    ∷ " | "
    ∷ pad 15 ip
    ∷ " | "
    ∷ pad 15 node
    ∷ "\n"
    ∷ [])

live_list_pods : Kube → String → Outcome
unfolding pod_row
live_list_pods kube ns = elim (kube.pods ns) [
  | failure e ↦ Outcome.error (concat ("failed to query pods in namespace '" ∷ ns ∷ "': " ∷ e ∷ []))
  | reply [] ↦ Outcome.answer (concat ("No pods found in namespace '" ∷ ns ∷ "'." ∷ []))
  | reply (p ∷ ps) ↦ Outcome.answer (
      concat (
        pod_row "POD NAME" "NAMESPACE" "STATUS" "IP" "NODE"
        ∷ rule 100
        ∷ "\n"
        ∷ map (λ (q : Pod). pod_row q.name q.namespace q.phase q.pod_ip q.node_name) (p ∷ ps)))
]

unfoldable pub list_pods : DiagnosticsEngine → String → Outcome
unfolding live_list_pods
list_pods e ns = if e.force_mock then Outcome.answer (mock_list_pods ns) else elim e.kube [
  | none ↦ Outcome.answer (mock_list_pods ns)
  | some kube ↦ live_list_pods kube ns
]
