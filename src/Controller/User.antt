-- ===== src/Controller/User.antt =====
-- internal/controller/user_controller.go
pub mod Base
pub mod Apply
pub mod Remove
pub mod Reconcile
pub mod Live
pub mod Rules
pub mod Names
pub mod Removal
pub mod Finalizer
pub mod Readiness
pub mod Store
pub mod Lifecycle
pub mod Completes
pub mod Converges
pub mod Settles
pub mod Leaves
pub mod Held
pub mod Closes
