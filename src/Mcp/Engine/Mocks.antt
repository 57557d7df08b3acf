-- ===== src/Mcp/Engine/Mocks.antt =====
-- The answers without a client (mcp-server/diagnostics.go).
use velo_infra_playground.Prelude.{String, List, [], ◌∷◌, if◌then◌else◌}
use velo_infra_playground.Prelude.Int.{ℤ}
use velo_infra_playground.Prelude.Text.{concat, contains, show_int}
use velo_infra_playground.Mcp.Engine.Text.{rule}
use velo_infra_playground.Prelude.Text.Layout.{pad}

mock_row : String → String → String → String → String → String
mock_row id names image status ports = concat (
    pad 20 id
    ∷ " | "
    ∷ pad 30 names
    ∷ " | "
    ∷ pad 25 image
    ∷ " | "
    ∷ pad 15 status
    ∷ " | "
    ∷ pad 20 ports
    ∷ "\n"
    ∷ [])

unfoldable pub mock_list_containers : String
unfolding mock_row
mock_list_containers = concat (
    "[MOCK DATA] Current Active Docker Containers:\n\n"
    ∷ mock_row "CONTAINER ID" "NAMES" "IMAGE" "STATUS" "PORTS"
    ∷ rule 120
    ∷ "\n"
    ∷ mock_row "a78f23bc9d1e" "triton-inference-server" "nvcr.io/nvidia/triton:24.04" "Up 4 hours"
        "8000->8000/tcp"
    ∷ mock_row "5e8dfd91204a" "velo-sentinel-gateway" "velo-sentinel:latest" "Up 4 hours"
        "9000->9000/tcp"
    ∷ mock_row "12a34b56c78d" "slurm-simulator" "slurm-simulator:latest" "Up 2 hours"
        "6820->6820/tcp"
    ∷ mock_row "9ef01a23b45c" "redfish-simulator" "redfish-simulator:latest" "Up 2 hours"
        "8000->8000/tcp"
    ∷ [])

triton_logs : List String
triton_logs =
    "I0613 08:00:00.102 Triton Inference Server v2.44.0 starting...\n"
    ∷ "I0613 08:00:01.340 Creating GPU backends (mocked on Apple Silicon)\n"
    ∷ "I0613 08:00:02.051 loaded model 'resnet50_onnx' version 1 successfully\n"
    ∷ "I0613 08:00:02.052 loaded model 'inception_graphdef' version 1 successfully\n"
    ∷ "I0613 08:00:03.110 HTTP Server listening on port 8000\n"
    ∷ "I0613 08:00:03.111 gRPC Server listening on port 8001\n"
    ∷ "I0613 08:05:12.440 Received inference batch (size=16) for 'resnet50_onnx'\n"
    ∷ "I0613 08:05:12.445 Inference latency: 4.8ms\n" ∷ []

sentinel_logs : List String
sentinel_logs =
    "[Sentinel] 2026-06-13T08:00:00.124Z Sentinel Gateway starting on port 9000\n"
    ∷ "[Sentinel] 2026-06-13T08:00:00.250Z Registered downstream gRPC Triton client at localhost:8001\n"
    ∷ "[Sentinel] 2026-06-13T08:05:12.438Z Routing incoming request to Triton 'resnet50_onnx' model\n"
    ∷ "[Sentinel] 2026-06-13T08:12:00.100Z Health check: Triton is reachable. State=OK\n"
    ∷ "[Sentinel] 2026-06-13T08:30:15.549Z Queue depth metric: 0 active requests\n" ∷ []

slurm_logs : List String
slurm_logs =
    "[Slurm Simulator] Starting slurmrestd mock daemon on :6820...\n"
    ∷ "[Scheduler] Scheduled Job 10001 (gpu_intensive) on node-1\n"
    ∷ "[Scheduler] Job 10001 (gpu_intensive) COMPLETED on node node-1\n" ∷ []

unfoldable pub mock_tail_logs : String → ℤ → String
unfolding triton_logs sentinel_logs slurm_logs
mock_tail_logs name lines = concat (
    "[MOCK DATA] Tail logs for container '"
    ∷ name
    ∷ "' (last "
    ∷ show_int lines
    ∷ " lines):\n\n"
    ∷ (if contains name "triton"
        then triton_logs
        else if contains name "sentinel"
        then sentinel_logs
        else if contains name "slurm"
        then slurm_logs
        else ("I0613 08:00:00.000 Initialized " ∷ name ∷ " diagnostic logs\n"
            ∷ "I0613 08:10:00.000 Container " ∷ name ∷ " status checked: Health=OK\n" ∷ [])))

mock_pod : String → String → String → String → String → String
mock_pod name namespace status ip node = concat (
    pad 35 name
    ∷ " | "
    ∷ pad 12 namespace
    ∷ " | "
    ∷ pad 12 status
    ∷ " | "
    ∷ pad 15 ip
    ∷ " | "
    ∷ pad 15 node
    ∷ "\n"
    ∷ [])

unfoldable pub mock_list_pods : String → String
unfolding mock_pod
mock_list_pods ns = concat (
    "[MOCK DATA] Kubernetes Pods in namespace '"
    ∷ ns
    ∷ "':\n\n"
    ∷ mock_pod "POD NAME" "NAMESPACE" "STATUS" "IP" "NODE"
    ∷ rule 100
    ∷ "\n"
    ∷ mock_pod "velo-sentinel-6f89b9d99-abc12" ns "Running" "10.244.0.5" "colima-node"
    ∷ mock_pod "triton-worker-0" ns "Running" "10.244.0.6" "colima-node"
    ∷ mock_pod "triton-worker-1" ns "Pending" "<none>" "<none>"
    ∷ [])
