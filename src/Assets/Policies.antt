-- ===== src/Assets/Policies.antt =====
-- What `NewRegistry` of pkg/assets/registry.go guarantees of the node disruption policies.
use virt_platform_autopilot.Prelude.{
  ◌<◌, String, eq_iff, ◌≡◌, ◌≢◌, refl, Option, none, some, List, [], ◌∷◌, arith,
}
use virt_platform_autopilot.Prelude.Maps.{Map, lookup}
use virt_platform_autopilot.Assets.Registry.{
  AssetMetadata, by_name, check_policy_asset, check_dependency, check_each,
  resolve_policy_dependencies,
}

-- The asset that a policy name stands for is a policy that is reconciled before the asset.
pub record IsPolicy (asset : AssetMetadata) (found : Option AssetMetadata) : Type 0 where
  pub policy : AssetMetadata
  pub is_found : found ≡ some policy
  pub is_policy : policy.component ≡ "MachineConfiguration"
  pub earlier : policy.reconcile_order < asset.reconcile_order

abbrev pub IsResolved : Map AssetMetadata → AssetMetadata → Option String → Type 0
IsResolved m asset none = Unit
IsResolved m asset (some name) =
    (asset.component ≡ "MachineConfig") × (name ≢ "") × IsPolicy asset (lookup m name)

abbrev pub AllResolved : Map AssetMetadata → List AssetMetadata → Type 0
AllResolved m [] = Unit
AllResolved m (asset ∷ assets) = IsResolved m asset asset.policy × AllResolved m assets

check_policy_asset-IsPolicy :
    (asset : AssetMetadata) (found : Option AssetMetadata)
    → check_policy_asset asset found ≡ none
    → IsPolicy asset found
unfolding check_policy_asset
check_policy_asset-IsPolicy asset none e = cc
check_policy_asset-IsPolicy asset (some policy) e = record {
  policy = policy;
  is_found = refl;
  is_policy = ground (arith, e, eq_iff policy.component "MachineConfiguration");
  earlier = ground (arith, e);
}

check_dependency-IsResolved :
    (m : Map AssetMetadata) (asset : AssetMetadata) (policy : Option String)
    → check_dependency m asset policy ≡ none
    → IsResolved m asset policy
unfolding check_dependency
check_dependency-IsResolved m asset none e = tt
check_dependency-IsResolved m asset (some name) e = (
  ground (arith, e, eq_iff asset.component "MachineConfig"),
  (λ n. ground (arith, e, n, eq_iff name "")),
  check_policy_asset-IsPolicy asset (lookup m name) (ground (arith, e)),
)

check_each-AllResolved :
    (m : Map AssetMetadata) (assets : List AssetMetadata)
    → check_each m assets ≡ none
    → AllResolved m assets
unfolding check_each
check_each-AllResolved m [] e = tt
check_each-AllResolved m (asset ∷ assets) e = (
  check_dependency-IsResolved m asset asset.policy (ground (arith, e)),
  check_each-AllResolved m assets (ground (arith, e)),
)

-- When the policy dependencies of a catalog resolve, every asset with one is a MachineConfig that
-- names a MachineConfiguration asset of the catalog, the last of its name, with a lower reconcile
-- order.
pub resolve_policy_dependencies-AllResolved :
    (assets : List AssetMetadata)
    → resolve_policy_dependencies assets ≡ none
    → AllResolved (by_name assets []) assets
unfolding resolve_policy_dependencies
resolve_policy_dependencies-AllResolved assets e =
    check_each-AllResolved (by_name assets []) assets e
