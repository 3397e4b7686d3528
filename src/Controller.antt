-- ===== src/Controller.antt =====
-- internal/controller/hacluster_controller.go: the reconciler of HAClusters.
pub mod Observation
pub mod Primary
pub mod Target
pub mod Timing
pub mod Effect
pub mod State
pub mod Frame
pub mod Failover
pub mod Manual
pub mod Automatic
pub mod Topology
pub mod Status
pub mod Observe
pub mod Reconcile
pub mod History
