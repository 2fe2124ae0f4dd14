-- ===== src/Monitoring.antt =====
-- What watches a running testnet: src/etb/monitoring.
pub mod Metrics
pub mod Clock
pub mod Availability
pub mod Peering
pub mod Parsers
pub mod Reports
