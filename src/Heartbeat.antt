-- ===== src/Heartbeat.antt =====
-- internal/services/heartbeat.go: the heartbeat report of a cluster.
pub mod Nodes
pub mod NodePools
pub mod Sources
pub mod Report
