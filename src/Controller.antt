-- ===== src/Controller.antt =====
-- internal/controller/srepolicy_controller.go: the helpers of the reconciler.
pub mod Findings
pub mod Conditions
pub mod Strings
pub mod Interval
pub mod Rotation
pub mod Checks
pub mod Session
pub mod Events
pub mod World
pub mod Gather
pub mod Cycle
pub mod Reconcile
