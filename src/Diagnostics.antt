-- ===== src/Diagnostics.antt =====
-- internal/diagnostics/logcollector.go: `Pods` is its data, `Lines` handles the text of a log, `Logs` collects from pods,
-- `Report` turns a collection into findings and a summary.
pub mod Lines
pub mod Pods
pub mod Logs
pub mod Report
