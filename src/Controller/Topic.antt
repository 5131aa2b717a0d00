-- ===== src/Controller/Topic.antt =====
-- internal/controller/topic_controller.go
pub mod Base
pub mod Apply
pub mod Remove
pub mod Reconcile
pub mod Rules
pub mod Names
pub mod Changes
pub mod Live
pub mod Readiness
pub mod Removal
pub mod Finalizer
pub mod Store
pub mod Lifecycle
pub mod Completes
pub mod Connects
pub mod Converges
pub mod TakesOver
pub mod Settles
pub mod Leaves
pub mod Held
pub mod Closes
