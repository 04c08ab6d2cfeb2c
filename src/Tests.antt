-- ===== src/Tests.antt =====
-- Runs of the definitions on small inputs, and each theorem with hypotheses at an input that meets them.
mod Handed
mod Queues
mod Objects
mod Caches
mod Ingresses
mod Heartbeats
mod Clients
mod Clusters
mod Watchers
mod Reports
mod Starts
mod Mirrors
mod FirstStarts
mod Settings
mod Races
