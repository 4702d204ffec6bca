-- ===== src/Overrides.antt =====
-- pkg/overrides: what a user may change by annotations on a managed object.
pub mod Validation
pub mod Pointer
pub mod Annotations
pub mod Security
pub mod Escapes
