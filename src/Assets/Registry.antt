-- ===== src/Assets/Registry.antt =====
-- The registry of pkg/assets/registry.go. Its catalog is read from YAML; what is modelled works on the
-- decoded list of assets.
use Prim.Native.String.{◌++◌}
use virt_platform_autopilot.Prelude.{
  ℕ, String, ◌==◌, Bool, true, false, not, ◌&&◌, ◌||◌, Option, none, some, List, [], ◌∷◌, leb,
  if◌then◌else◌, eqb,
}
use virt_platform_autopilot.Prelude.Maps.{Map, lookup, insert}
use virt_platform_autopilot.Kube.{Error, message, wrap, Result, ok, err}
use virt_platform_autopilot.Assets.Conditions.{
  InstallMode, always, opt_in, other_mode, AssetCondition, Values, ConditionEvaluator,
  evaluate_condition,
}

-- The fields of `AssetMetadata` that the registry reads; the policy is the name of the asset that
-- `node_disruption_policy` refers to.
pub record AssetMetadata : Type 0 where
  pub name : String
  pub gate_crd : String
  pub required_crd : String
  pub phase : ℕ
  pub install : InstallMode
  pub component : String
  pub reconcile_order : ℕ
  pub conditions : List AssetCondition
  pub policy : Option String

-- `assetsByName`: the last asset of a name wins.
abbrev pub by_name : List AssetMetadata → Map AssetMetadata → Map AssetMetadata
by_name [] m = m
by_name (asset ∷ assets) m = by_name assets (insert m asset.name asset)

unfoldable pub check_policy_asset : AssetMetadata → Option AssetMetadata → Option Error
check_policy_asset asset none =
    some (message ("MachineConfig asset references an unknown policy asset: " ++ asset.name))
check_policy_asset asset (some policy) =
    if not (policy.component == "MachineConfiguration")
    then some
        (message ("MachineConfig asset references an asset that is no policy: " ++ asset.name))
    else if leb asset.reconcile_order policy.reconcile_order
    then some (message ("node disruption policy asset must have a lower order: " ++ asset.name))
    else none

unfoldable pub check_dependency : Map AssetMetadata → AssetMetadata → Option String → Option Error
unfolding check_policy_asset
check_dependency assets asset none = none
check_dependency assets asset (some policy) =
    if not (asset.component == "MachineConfig")
    then some (message ("asset is not a MachineConfig: " ++ asset.name))
    else if policy == ""
    then some (message ("empty node_disruption_policy.asset: " ++ asset.name))
    else check_policy_asset asset (lookup assets policy)

unfoldable pub check_each : Map AssetMetadata → List AssetMetadata → Option Error
check_each m [] = none
check_each m (asset ∷ assets) = elim (check_dependency m asset asset.policy) [
  | some e ↦ some e
  | none ↦ check_each m assets
]

-- `resolveNodeDisruptionPolicyDependencies`: the first error, if there is one.
unfoldable pub resolve_policy_dependencies : List AssetMetadata → Option Error
unfolding check_each
resolve_policy_dependencies assets = check_each (by_name assets []) assets

-- `GetAsset`.
unfoldable pub get_asset : List AssetMetadata → String → Result AssetMetadata
get_asset [] name = err (message ("asset not found: " ++ name))
get_asset (asset ∷ assets) name =
    let rest = get_asset assets name in if asset.name == name then ok asset else rest

-- `ListAssets` with a phase.
unfoldable pub list_phase : List AssetMetadata → ℕ → List AssetMetadata
list_phase [] phase = []
list_phase (asset ∷ assets) phase =
    let rest = list_phase assets phase in if eqb asset.phase phase then asset ∷ rest else rest

abbrev pub depends_on : String → AssetMetadata → Bool
depends_on crd asset = asset.required_crd == crd || asset.gate_crd == crd

any_depends : String → List AssetMetadata → Bool
any_depends crd [] = false
any_depends crd (asset ∷ assets) = depends_on crd asset || any_depends crd assets

-- `IsManagedCRD`.
unfoldable pub is_managed_crd : List AssetMetadata → String → Bool
unfolding any_depends
is_managed_crd assets crd = if crd == "" then false else any_depends crd assets

names_of : String → List AssetMetadata → List String
names_of crd [] = []
names_of crd (asset ∷ assets) =
    let rest = names_of crd assets in if depends_on crd asset then asset.name ∷ rest else rest

-- `GetAssetsByCRD`.
unfoldable pub get_assets_by_crd : List AssetMetadata → String → List String
unfolding names_of
get_assets_by_crd assets crd = if crd == "" then [] else names_of crd assets

module _ (V : Values) where
  -- The loop over the conditions.
  unfoldable pub all_satisfied : ConditionEvaluator V → List AssetCondition → Result Bool
  all_satisfied e [] = ok true
  all_satisfied e (c ∷ cs) = elim (evaluate_condition V e c) [
    | err x ↦ err (wrap "failed to evaluate condition" x)
    | ok false ↦ ok false
    | ok true ↦ all_satisfied e cs
  ]

  unfoldable pub apply_unconditional : InstallMode → Result Bool
  apply_unconditional always = ok true
  apply_unconditional opt_in = ok false
  apply_unconditional (other_mode m) = ok true

  -- `ShouldApply`, on the conditions of the asset.
  unfoldable pub apply_if : ConditionEvaluator V → InstallMode → List AssetCondition → Result Bool
  unfolding apply_unconditional
  apply_if e mode [] = apply_unconditional mode
  apply_if e mode (c ∷ cs) = all_satisfied e (c ∷ cs)

  unfoldable pub should_apply : ConditionEvaluator V → AssetMetadata → Result Bool
  unfolding apply_if
  should_apply e asset = apply_if e asset.install asset.conditions

  -- Whether the asset counts as enabled; none where its conditions cannot be evaluated.
  unfoldable pub opted_in_by : InstallMode → Result Bool → Option Bool
  opted_in_by always r = some true
  opted_in_by opt_in (ok b) = some b
  opted_in_by opt_in (err e) = none
  opted_in_by (other_mode m) (ok b) = some b
  opted_in_by (other_mode m) (err e) = none

  unfoldable pub opted_in : ConditionEvaluator V → AssetMetadata → Option Bool
  unfolding opted_in_by
  opted_in e asset = opted_in_by asset.install (should_apply e asset)

  abbrev pub is_set : Option Bool → Bool
  is_set none = false
  is_set (some b) = b

  -- `states[crdName] = states[crdName] || optedIn`, for a name that is not empty.
  unfoldable pub record_crd : Bool → String → Map Bool → Map Bool
  record_crd b crd m = if crd == "" then m else insert m crd (is_set (lookup m crd) || b)

  unfoldable pub record_asset : Option Bool → AssetMetadata → Map Bool → Map Bool
  record_asset none asset m = m
  record_asset (some b) asset m = record_crd b asset.gate_crd (record_crd b asset.required_crd m)

  unfoldable pub collect_states : ConditionEvaluator V → List AssetMetadata → Map Bool → Map Bool
  unfolding record_asset
  collect_states e [] m = m
  collect_states e (asset ∷ assets) m = collect_states e assets (
      if asset.required_crd == "" && asset.gate_crd == ""
      then m
      else record_asset (opted_in e asset) asset m)

  -- `CRDOptInStates`.
  unfoldable pub crd_opt_in_states : ConditionEvaluator V → List AssetMetadata → Map Bool
  unfolding collect_states
  crd_opt_in_states e assets = collect_states e assets []
