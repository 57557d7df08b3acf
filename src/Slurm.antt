-- ===== src/Slurm.antt =====
-- The Slurm REST simulator (slurm-simulator/).
pub mod Types
pub mod Store
pub mod Scheduler
pub mod Accounting
pub mod Usage
pub mod Invariant
pub mod Moves
pub mod Safety
pub mod Reach
pub mod Placement
pub mod Completion
pub mod Starts
pub mod Tick
pub mod Requests
pub mod Handlers
mod Examples
