-- ===== src/Nccl.antt =====
-- The ring all-reduce programs (nccl-visualizer/).
pub mod Network
pub mod AllReduce
pub mod Simulator
pub mod Node
pub mod Buffers
pub mod Index
pub mod Sums
pub mod Renderer
pub mod Report
mod Examples
