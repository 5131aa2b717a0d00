-- ===== src/Examples.antt =====
-- Runs of the reconcilers and of the client's operations at concrete inputs, in a concrete outside.
pub mod World
pub mod Topics
pub mod Users
pub mod Acls
pub mod Clusters
pub mod Commands
pub mod TakenOver
pub mod Addresses
pub mod Outage
pub mod Deletions
pub mod Refusals
