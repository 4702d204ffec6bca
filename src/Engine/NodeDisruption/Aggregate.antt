-- ===== src/Engine/NodeDisruption/Aggregate.antt =====
-- The aggregate node disruption policy of node_disruption_policy.go: the entries of every active asset in
-- one object.
pub mod Merged
pub mod Complete
pub mod Listed
use Prim.Native.String.{◌++◌}
use virt_platform_autopilot.Prelude.{
  String, ◌==◌, Bool, true, false, not, ◌&&◌, ◌||◌, Option, none, some, List, [], ◌∷◌, is_some,
  if◌then◌else◌,
}
use virt_platform_autopilot.Prelude.Maps.{Map, lookup, insert}
use virt_platform_autopilot.Kube.{
  Kube, ExclusionRule, Dependency, Asset, message, Error, Result, ok, err,
}
use virt_platform_autopilot.Kube.Results.{◌>>=◌, ◌>>◌, guard, in_context}
use virt_platform_autopilot.Engine.Coalescing.{sort_names}
use virt_platform_autopilot.Engine.Exclusion.{
  disabled_resources_annotation, parse_disabled_resources, is_resource_excluded, excluded,
}
use virt_platform_autopilot.Engine.NodeDisruption.Coverage.{covers_machine_config}
use virt_platform_autopilot.Engine.NodeDisruption.Effective.{
  machine_configuration_id, render_policy,
}

abbrev pub keys {ℓ} : {V : Type ℓ} → Map V → List String
keys [] = []
keys ((k, v) ∷ m) = k ∷ keys m

abbrev pub text_or_empty : Option String → String
text_or_empty none = ""
text_or_empty (some s) = s

-- `active[name]`
abbrev pub is_active : Map Bool → String → Bool
is_active active name = elim (lookup active name) [ none ↦ false | some b ↦ b ]

module _ (K : Kube) where
  open K use {
    Obj, Value, Cluster, Facts, annotations, as_map, of_map, of_list, nested_map, nested_slice,
    nested_string, same_map, new_object, render,
  }

  -- `nodeDisruptionPolicyExclusionRules`, with an HCO: an annotation that does not parse gives no rules.
  unfoldable pub exclusion_rules : Obj → List ExclusionRule
  exclusion_rules hco =
      elim (parse_disabled_resources K
        (text_or_empty (lookup (annotations hco) disabled_resources_annotation))) [
          | err e ↦ []
          | ok rules ↦ rules
        ]

  nonempty_policy : String → Option (Map Value) → Result (Map Value)
  nonempty_policy name none =
      err (message ("node disruption policy asset rendered empty for active dependent " ++ name))
  nonempty_policy name (some want) = ok want

  entries_for_rendered :
      Obj
      → Facts
      → String
      → Dependency
      → List ExclusionRule
      → Cluster
      → Option Obj
      → Result (Option (Map Value))
  unfolding nonempty_policy
  entries_for_rendered hco facts name dependency rules cluster none = ok none
  entries_for_rendered hco facts name dependency rules cluster (some dependent) =
      if excluded K rules dependent then ok none else (do
        rendered ← render_policy K hco facts dependency.policy_asset cluster
        want ← nonempty_policy name rendered
        in_context ("node disruption policy asset does not cover dependent " ++ name)
            (covers_machine_config K want dependent)
        ok (some want))

  -- `nodeDisruptionPolicyEntriesForDependent`
  unfoldable pub entries_for_dependent :
      Obj → Facts → String → Dependency → List ExclusionRule → Cluster → Result (Option (Map Value))
  unfolding entries_for_rendered
  entries_for_dependent hco facts name dependency rules cluster = do
    dependent ←
        in_context ("render node disruption policy dependent " ++ name)
          (render name hco facts cluster)
    entries_for_rendered hco facts name dependency rules cluster dependent

  merge_found : Option (Map Value) → Map Value → Result (Option (Map Value))
  merge_found none candidate = ok (some candidate)
  merge_found (some existing) candidate =
      if same_map existing candidate
      then ok (some candidate)
      else err (message "node disruption policy sshkey actions conflict between active assets")

  -- `mergeNodeDisruptionPolicySSHKey`
  unfoldable pub merge_ssh_key : Option (Map Value) → Map Value → Result (Option (Map Value))
  unfolding merge_found
  merge_ssh_key existing policy = do
    candidate ← nested_map policy ("sshkey" ∷ [])
    elim candidate [ none ↦ ok existing | some c ↦ merge_found existing c ]

  unfoldable pub merge_object : String → Option (Map Value) → Result (Map Value)
  merge_object field none =
      err (message ("node disruption policy " ++ field ++ " entry is not an object"))
  merge_object field (some m) = ok m

  merge_key : String → String → Result (Option String) → Result String
  merge_key field identifier (ok (some key)) =
      if key == ""
      then err (message ("node disruption policy " ++ field ++ " entry has no " ++ identifier))
      else ok key
  merge_key field identifier _ =
      err (message ("node disruption policy " ++ field ++ " entry has no " ++ identifier))

  fits : Map Value → Option (Map Value) → Bool
  fits m none = true
  fits m (some existing) = same_map existing m

  -- The loop of `mergeNodeDisruptionPolicyEntries`.
  unfoldable pub merge_each :
      String → String → List Value → Map (Map Value) → Result (Map (Map Value))
  unfolding merge_object merge_key fits
  merge_each field identifier [] destination = ok destination
  merge_each field identifier (entry ∷ entries) destination = do
    m ← merge_object field (as_map entry)
    key ← merge_key field identifier (nested_string m (identifier ∷ []))
    guard (fits m (lookup destination key)) (
        message
          ("node disruption policy " ++ field ++ " entry conflicts between active assets: " ++ key))
    merge_each field identifier entries (insert destination key m)

  unfoldable pub merge_found_entries :
      String → String → Option (List Value) → Map (Map Value) → Result (Map (Map Value))
  merge_found_entries field identifier none destination = ok destination
  merge_found_entries field identifier (some entries) destination =
      merge_each field identifier entries destination

  -- `mergeNodeDisruptionPolicyEntries`
  unfoldable pub merge_entries :
      Map (Map Value) → Map Value → String → String → Result (Map (Map Value))
  merge_entries destination policy field identifier = do
    entries ← nested_slice policy (field ∷ [])
    merge_found_entries field identifier entries destination

  -- The local variables of `nodeDisruptionPolicyAggregateEntries`.
  pub record Merge : Type 0 where
    pub files : Map (Map Value)
    pub units : Map (Map Value)
    pub ssh_key : Option (Map Value)

  unfoldable pub merge_candidate : Merge → Map Value → Result Merge
  merge_candidate a candidate = do
    files ← merge_entries a.files candidate "files" "path"
    units ← merge_entries a.units candidate "units" "name"
    ssh_key ← merge_ssh_key a.ssh_key candidate
    ok (record { files = files; units = units; ssh_key = ssh_key })

  merge_included : Merge → Option (Map Value) → Result Merge
  merge_included a none = ok a
  merge_included a (some candidate) = merge_candidate a candidate

  -- The asset's policy dependency, if the asset is active and the dependency is resolved.
  abbrev pub contributes : Map Bool → Asset → Option Dependency → Option Dependency
  contributes active asset none = none
  contributes active asset (some dependency) =
      if is_some dependency.policy_asset && is_active active asset.name
      then some dependency
      else none

  -- The loop over the assets.
  unfoldable pub merge_assets :
      Obj → Facts → Map Bool → List ExclusionRule → Cluster → List Asset → Merge → Result Merge
  unfolding merge_included
  merge_assets hco facts active rules cluster [] a = ok a
  merge_assets hco facts active rules cluster (asset ∷ assets) a =
      elim (contributes active asset asset.policy) [
        | none ↦ merge_assets hco facts active rules cluster assets a
        | some dependency ↦ (do
          candidate ← entries_for_dependent hco facts asset.name dependency rules cluster
          merged ← merge_included a candidate
          merge_assets hco facts active rules cluster assets merged)
      ]

  unfoldable pub entries_at : Map (Map Value) → List String → List Value
  entries_at m [] = []
  entries_at m (key ∷ rest) =
      elim (lookup m key) [ none ↦ of_map [] | some entry ↦ of_map entry ] ∷ entries_at m rest

  -- `nodeDisruptionPolicySortedEntries`
  unfoldable pub sorted_entries : Map (Map Value) → List Value
  unfolding entries_at
  sorted_entries m = entries_at m (sort_names (keys m))

  abbrev ssh_key_field : Option (Map Value) → Map Value
  ssh_key_field none = []
  ssh_key_field (some key) = ("sshkey", of_map key) ∷ []

  abbrev has_any : Map (Map Value) → Bool
  has_any [] = false
  has_any (entry ∷ m) = true

  -- `len(files) > 0 || len(units) > 0 || sshKey != nil`
  unfoldable pub has_entries : Merge → Bool
  has_entries a = has_any a.files || has_any a.units || is_some a.ssh_key

  unfoldable pub aggregate_of : Merge → Map Value
  aggregate_of a =
      ("files", of_list (sorted_entries a.files))
      ∷ ("units", of_list (sorted_entries a.units))
      ∷ ssh_key_field a.ssh_key

  abbrev pub empty_merge : Merge
  empty_merge = record { files = []; units = []; ssh_key = none }

  -- `nodeDisruptionPolicyAggregateEntries`, with whether an active dependent contributes.
  unfoldable pub aggregate_entries :
      Obj → Facts → Map Bool → List ExclusionRule → Cluster → List Asset → Result (Map Value × Bool)
  aggregate_entries hco facts active rules cluster assets = do
    a ← merge_assets hco facts active rules cluster assets empty_merge
    ok (aggregate_of a, has_entries a)

  abbrev policy_object : Map Value → Obj
  policy_object aggregate =
      new_object machine_configuration_id
        (("spec", of_map (("nodeDisruptionPolicy", of_map aggregate) ∷ [])) ∷ [])

  -- `aggregateNodeDisruptionPolicies`: the desired object, and whether it may be created.
  unfoldable pub aggregate_policies :
      Obj → Facts → List Asset → Map Bool → Bool → Cluster → Result (Option Obj × Bool)
  aggregate_policies hco facts assets active prune_tombstone_actions cluster =
      let rules = exclusion_rules hco in
      if is_resource_excluded K machine_configuration_id.kind "" machine_configuration_id.name rules
      then ok (none, false)
      else (do
        (aggregate, has_active_dependent) ← aggregate_entries hco facts active rules cluster assets
        ok (some (policy_object aggregate), has_active_dependent || prune_tombstone_actions))
