-- ===== src/Controller.antt =====
-- cmd/blackstart/controller_runtime.go: the controller that runs workflows from Kubernetes.
pub mod Scheduler
pub mod Dispatch
pub mod Counts
pub mod Flags
pub mod Owned
pub mod Settled
pub mod Exclusive
pub mod Kept
pub mod Steps
pub mod Drains
pub mod Namespaces
pub mod Samples
