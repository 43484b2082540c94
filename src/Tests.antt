-- ===== src/Tests.antt =====
-- The examples of the theorems: each applied to concrete inputs.
mod Workflow
mod Findings
mod Rotation
mod Diagnostics
mod Client
mod Reconcile
mod Main
mod Memory
mod Lifecycle
