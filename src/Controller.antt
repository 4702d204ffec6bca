-- ===== src/Controller.antt =====
-- pkg/controller/platform_controller.go: one reconciliation of the platform.
pub mod Steps
pub mod Selection
pub mod Assets
pub mod Reconcile
pub mod Watch
pub mod Context
