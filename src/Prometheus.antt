-- ===== src/Prometheus.antt =====
-- internal/prometheus: the HTTP client of client.go with its data, and the stubs of stubs.go.
pub mod Network
pub mod Client
pub mod Stubs
