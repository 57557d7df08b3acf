-- ===== src/Operator.antt =====
-- The Kubernetes operator (k8s-operator/).
pub mod Types
pub mod Scaling
pub mod Reconciler
mod Examples
