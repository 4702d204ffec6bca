-- ===== src/Assets.antt =====
-- pkg/assets: the catalog of assets.
pub mod Conditions
pub mod Registry
pub mod Activation
pub mod Policies
