-- ===== src/Lib.antt =====
-- The simulators and the operator of the inference playground, as functions on explicit states.
--
-- Slurm simulator (slurm-simulator/). `Slurm.Types` and `Slurm.Store` are store.go: the cluster
-- store with its nodes, partitions and jobs, and one function per method of `ClusterStore`.
-- `Slurm.Scheduler` is scheduler.go: `reconcile_jobs` completes running jobs and places pending
-- ones, `try_nodes` is the first-fit loop. `Slurm.Handlers` is handlers.go, with the request types
-- in `Handlers.Api` and the defaults of a submission in `Handlers.Validation`. `Slurm.Accounting`,
-- `Usage`, `Invariant`, `Moves`, `Safety` and `Reach` lead to the accounting of nodes; `Placement`
-- is about one placement, `Completion`, `Starts` and `Tick` about a whole tick, `Requests` and
-- `Handlers.Contract` about what a client sees.
--
-- Kubernetes operator (k8s-operator/). `Operator.Types` holds the custom resource and, as the
-- record `Cluster`, what the reconciler uses of the API server. Nothing is assumed of that: its
-- client reads from a cache that may be behind. `recorded` is the same API server with a record of
-- the writes that it is asked for. `Operator.Scaling` and `Operator.Reconciler` are
-- internal/controller/sentineldeployment_controller.go.
--
-- Redfish simulator (redfish-simulator/). `Redfish.Types` and `Redfish.Store` are store.go,
-- `Redfish.Handlers` is handlers.go, with the table of routes in `Handlers.Routes`. `Power`,
-- `Physics`, `Handlers.Contract` and `Handlers.Chassis` are about them.
--
-- All-reduce (nccl-visualizer/). `Nccl.Network` is what main.go and simulator.go have in common:
-- goroutines in a ring, each with a buffer and a channel that the one before it sends to, which do
-- one channel operation at a time in the order of a schedule. `Nccl.Node` is the program of
-- main.go on it, with channels of capacity one, `Nccl.Simulator` the ring topology of simulator.go
-- and types.go, whose `step` releases every goroutine for one round; `Simulator.View` is what its
-- display is told, for both topologies, `Simulator.Simulated` the states that its steps lead to,
-- `Simulator.Tree` how the tree is built and `Tree.Run` its steps. Within a step of the tree a GPU
-- either sends or receives, and at most two messages go to a channel that holds twice as many as
-- there are GPUs, so no sender waits: the messages are put into the channels first, in an order
-- that is an argument, and then taken out. `Tree.Goroutines` is the same step one channel
-- operation at a time, in the order of a schedule, and `Tree.AnyOrder` compares the two, with
-- `Tree.Interleaving`, `Tree.Schedules`, `Tree.Parcels` and `Tree.Reorder`. The walk over the tree
-- has fuel for one level per GPU, which is enough since a child has a greater number than its
-- parent. The values and their addition are parameters, since `float64` is not associative.
-- `Node.Exact` is about the sums of the program's own data, where the arithmetic is exact on whole
-- numbers up to 2^53 (`ExactIntegers`), as that of IEEE 754 is; the largest sum of fifteen nodes
-- is 1666666666666665, and those of sixteen may be above. `Node.Sums` and `Report.Success` draw on
-- it. `Network.Follows`, `Network.Progress` and `Network.Limit` are about rings whose rounds
-- follow given buffers, `AllReduce`, `Buffers` and `Index` give the buffers of an all-reduce, and
-- `Node.Results`, `Simulator.Settled`, `Simulator.Results` and `Simulator.Display` put them
-- together. `Tree.Delivery` says which messages reach a GPU, `Tree.Upward` and `Tree.Downward`
-- what it makes of them, `Tree.Capacity` how many there are, `Tree.AllReduce` which sums a GPU
-- holds after a step, and `Tree.Results` puts these together, with the sums over reordered lists
-- of `Nccl.Sums`.
--
-- `Nccl.Report` is what main.go prints before its goroutines start and after they have ended, and
-- `Report.Success` is about the end. The dashboard (nccl-visualizer/renderer.go) is
-- `Nccl.Renderer`, with a module per panel: `Renderer.Diagram`, `Renderer.Table` and
-- `Renderer.Console`. A panel is the list of the texts that it writes, each with its line's end,
-- or none where it panics. `Nccl.Simulator.Logs` is the log and the texts of its entries. How
-- `fmt` writes a `float64`, whether two of them differ, and the division of the progress bar are
-- parameters. `Renderer.Panels` and `Renderer.Returns` are about the whole dashboard,
-- `Renderer.Links` about the diagram of a tree, with `Simulator.Tree.Shape` for the sizes that the
-- steps keep, and `Renderer.Recent` about the console.
--
-- Diagnostics server (mcp-server/). `Mcp.Engine` is diagnostics.go, with its texts in
-- `Engine.Text`, the mock answers in `Engine.Mocks` and the loop over a log in `Engine.Logs`;
-- `Mcp.Handlers` is the tools of main.go. What the Docker and Kubernetes clients answer is a
-- parameter. `Engine.Search`, `Engine.Panics`, `Engine.Contract` and `Handlers.Contract` are about
-- them.
--
-- Conventions. Go's `int` and `int64` are ℤ, and every sum, difference and product wraps around at
-- 64 bits (`Prelude.Words`); the operator's `int32` conversion wraps at 32. A Go map is an
-- association list (`Prelude.Dict`); the order in which a loop meets its entries is an argument
-- where it matters. The methods of a store hold its lock from start to end, so each is one step
-- and the lock is not modelled. The clock's readings are arguments. Of the standard library, the
-- operations on text that the program uses (`strings.Split`, `Contains`, `Replace` with a count of
-- one, `strconv.ParseInt` and `Atoi`, `%d`) are written out in `Prelude.Text`. All other loops are
-- structural. A schedule is a list of the goroutines that move, of any length; one that cannot
-- move when its turn comes is passed over.
--
-- Not modelled: the programs' entry points, sockets, signals and log lines; routing by net/http
-- and the encoding and decoding of JSON; the ticker of the scheduler; registration with the
-- controller manager and generated code; when the simulator's goroutines write their log entries,
-- and what the goroutines of nccl-visualizer/main.go print; the Python pipeline and the manifests.
pub mod Prelude
pub mod Mcp
pub mod Nccl
pub mod Slurm
pub mod Operator
pub mod Redfish
