-- ===== src/Controller.antt =====
-- internal/controller: the reconcilers of the four resources.
pub mod Common
pub mod Helpers
pub mod Passive
pub mod Repeats
pub mod Setup
pub mod Working
pub mod Credentials
pub mod Connections
pub mod Conditions
pub mod Cluster
pub mod Topic
pub mod User
pub mod Acl
pub mod Gates
pub mod Stuck
