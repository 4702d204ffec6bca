-- ===== src/Engine/Tombstone/Policies.antt =====
-- pkg/engine/tombstone.go: whether a retired MachineConfig still has node disruption policy actions in effect.
pub mod Uncovered
pub mod Released
use virt_platform_autopilot.Prelude.{
  String, Bool, true, false, ◌||◌, Option, none, some, List, [], ◌∷◌, if◌then◌else◌,
}
use virt_platform_autopilot.Prelude.Maps.{Map}
use virt_platform_autopilot.Kube.{Kube, wrap, Result, ok, err, is_not_found, is_no_match}
use virt_platform_autopilot.Kube.Results.{◌>>=◌, in_context}
use virt_platform_autopilot.Overrides.Validation.{contains}
use virt_platform_autopilot.Engine.NodeDisruption.Effective.{machine_configuration_id}
use virt_platform_autopilot.Engine.Tombstone.{
  TombstoneMetadata, is_machine_config_tombstone_metadata, is_owned,
}

-- A missing list has no entries.
abbrev pub or_empty {ℓ} : {A : Type ℓ} → Option (List A) → List A
or_empty none = []
or_empty (some xs) = xs

module _ (K : Kube) where
  open K use {Obj, Value, Cluster, object, as_map, nested_map, nested_slice, nested_string, get}

  add_name : Option String → List String → List String
  add_name none names = names
  add_name (some name) names = name ∷ names

  -- The names of the entries that are objects and have one.
  unfoldable pub entry_names : String → List Value → Result (List String)
  unfolding add_name
  entry_names identifier [] = ok []
  entry_names identifier (entry ∷ entries) = elim (as_map entry) [
    | none ↦ entry_names identifier entries
    | some m ↦ (do
      name ← nested_string m (identifier ∷ [])
      rest ← entry_names identifier entries
      ok (add_name name rest))
  ]

  is_effective : List String → Option String → Bool
  is_effective names none = false
  is_effective names (some name) = contains names name

  -- The loop over the entries of the MachineConfig, up to the first that is in effect.
  unfoldable pub any_effective : List String → String → List Value → Result Bool
  unfolding is_effective
  any_effective names identifier [] = ok false
  any_effective names identifier (entry ∷ entries) = elim (as_map entry) [
    | none ↦ any_effective names identifier entries
    | some m ↦ (do
      name ← nested_string m (identifier ∷ [])
      let rest = any_effective names identifier entries
      if is_effective names name then ok true else rest)
  ]

  -- One round of the loop over files and units.
  unfoldable pub field_effective : Obj → Map Value → String → String → String → String → Result Bool
  field_effective machine_config effective field section entry_field identifier = do
    effective_entries ← nested_slice effective (field ∷ [])
    names ← entry_names identifier (or_empty effective_entries)
    entries ← nested_slice (object machine_config) ("spec" ∷ "config" ∷ section ∷ entry_field ∷ [])
    any_effective names identifier (or_empty entries)

  -- `machineConfigHasEffectiveNodeDisruptionPolicy`
  unfoldable pub machine_config_effective : Obj → Map Value → Result Bool
  machine_config_effective machine_config effective = do
    files ← field_effective machine_config effective "files" "storage" "files" "path"
    if files
        then ok true
        else field_effective machine_config effective "units" "systemd" "units" "name"

  live_effective : Map Value → Result Obj → Result Bool
  live_effective effective (err e) =
      if is_not_found e || is_no_match e
      then ok false
      else err (wrap "read MachineConfig tombstone" e)
  live_effective effective (ok live) =
      if is_owned K live
      then in_context "read MachineConfig tombstone policy actions"
          (machine_config_effective live effective)
      else ok false

  tombstone_effective : Map Value → Cluster → TombstoneMetadata → Result Bool
  unfolding live_effective
  tombstone_effective effective cluster ts =
      if is_machine_config_tombstone_metadata ts
      then live_effective effective (get ts.id cluster)
      else ok false

  -- The loop over the tombstones.
  unfoldable pub any_tombstone_effective :
      Map Value → Cluster → List TombstoneMetadata → Result Bool
  unfolding tombstone_effective
  any_tombstone_effective effective cluster [] = ok false
  any_tombstone_effective effective cluster (ts ∷ rest) = do
    blocked ← tombstone_effective effective cluster ts
    let others = any_tombstone_effective effective cluster rest
    if blocked then ok true else others

  status_effective : List TombstoneMetadata → Cluster → Option (Map Value) → Result Bool
  status_effective tombstones cluster none = ok false
  status_effective tombstones cluster (some effective) =
      any_tombstone_effective effective cluster tombstones

  policy_read : List TombstoneMetadata → Cluster → Result Obj → Result Bool
  unfolding status_effective
  policy_read tombstones cluster (err e) =
      if is_not_found e || is_no_match e
      then ok false
      else err (wrap "read MachineConfiguration cluster" e)
  policy_read tombstones cluster (ok policy) = do
    effective ←
        nested_map (object policy)
          ("status" ∷ "nodeDisruptionPolicyStatus" ∷ "clusterPolicies" ∷ [])
    status_effective tombstones cluster effective

  -- `MachineConfigTombstonesHaveEffectiveNodeDisruptionPolicy`, with what `LoadTombstones` returned.
  unfoldable pub tombstones_have_effective_policy :
      Result (List TombstoneMetadata) → Cluster → Result Bool
  unfolding policy_read
  tombstones_have_effective_policy loaded cluster = do
    tombstones ← in_context "failed to load tombstones" loaded
    policy_read tombstones cluster (get machine_configuration_id cluster)
