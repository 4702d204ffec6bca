-- ===== src/Engine/NodeDisruption.antt =====
-- pkg/engine/node_disruption_policy.go: MachineConfigs whose changes a node disruption policy covers.
pub mod Coverage
pub mod Matching
pub mod Effective
pub mod Aggregate
pub mod Reconcile
