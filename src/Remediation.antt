-- ===== src/Remediation.antt =====
-- internal/remediation/remediation.go: `Engine` runs one action, `Topology` sorts a workflow's steps
-- by their dependencies, `Steps` is their statuses, `Workflow` is one iteration of the workflow runner.
pub mod Engine
pub mod Topology
pub mod Steps
pub mod Workflow
