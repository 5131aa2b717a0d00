-- ===== src/Api.antt =====
-- api/v1alpha1: the custom resources, and the part of the Kubernetes object metadata that the
-- controllers read.
pub mod Meta
pub mod Cluster
pub mod Topic
pub mod User
pub mod Acl
