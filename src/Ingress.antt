-- ===== src/Ingress.antt =====
-- internal/utils/ingress.go: what the agent reports of an ingress.
--
-- A world `W` stands for the cluster: each call of the Kubernetes client may read and change it.
pub mod Types
pub mod Health
pub mod Service
pub mod Details
