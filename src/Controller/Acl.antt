-- ===== src/Controller/Acl.antt =====
-- internal/controller/acl_controller.go
pub mod Config
pub mod Base
pub mod Apply
pub mod Remove
pub mod Reconcile
pub mod Rules
pub mod Live
pub mod Removal
pub mod Finalizer
pub mod Readiness
pub mod Faithful
pub mod Decoded
pub mod Store
pub mod Lifecycle
pub mod Completes
pub mod Converges
pub mod Settles
pub mod Leaves
pub mod Held
pub mod Closes
