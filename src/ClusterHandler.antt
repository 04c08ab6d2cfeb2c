-- ===== src/ClusterHandler.antt =====
-- v2/internal/handlers/clusterhandler/clusterhandler.go: the cluster resource of the v2 agent, and what
-- it is made of.
pub mod Urls
pub mod Nodes
pub mod Environment
pub mod Update
