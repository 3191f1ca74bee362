-- ===== src/Prometheus.antt =====
-- The Prometheus text format: src/prometheus.rs.
pub mod Label
pub mod Number
pub mod Source
pub mod Sample
pub mod Labels
pub mod Reader
pub mod Tests
