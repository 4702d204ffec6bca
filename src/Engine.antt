-- ===== src/Engine.antt =====
-- pkg/engine: the Patched Baseline algorithm and what it stands on.
pub mod World
pub mod Drift
pub mod Applier
pub mod Exclusion
pub mod Tombstone
pub mod Flow
pub mod Coalescing
pub mod NodeDisruption
pub mod Patcher
