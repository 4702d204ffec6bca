-- ===== src/Engine/Coalescing/Pools.antt =====
-- The MachineConfigPools of machineconfig_coalescing.go: which of them an object belongs to, and when
-- one releases a staged update; the administrator's bypass.
pub mod Releases
pub mod Reported
use virt_platform_autopilot.Prelude.{
  String, ◌==◌, Bool, true, false, ◌&&◌, ◌||◌, Option, none, some, List, [], ◌∷◌, if◌then◌else◌,
}
use virt_platform_autopilot.Prelude.Maps.{Map, lookup, insert}
use virt_platform_autopilot.Kube.{Kube, wrap, Result, ok, err}
use virt_platform_autopilot.Overrides.Validation.{contains}

abbrev pub bypass_annotation : String
bypass_annotation = "platform.kubevirt.io/bypass-mcp-rollout-coalescing"

abbrev pub policy_bypass_annotation : String
policy_bypass_annotation = "platform.kubevirt.io/node-disruption-policy-effective"

abbrev pub machine_config_group : String
machine_config_group = "machineconfiguration.openshift.io"

abbrev pub machine_config_kind : String
machine_config_kind = "MachineConfig"

abbrev pub rollout_condition_types : List String
rollout_condition_types = "RenderDegraded" ∷ "Updating" ∷ []

-- `strconv.ParseBool`.
unfoldable pub parse_bool : String → Option Bool
unfolding contains
parse_bool s =
    if contains ("1" ∷ "t" ∷ "T" ∷ "true" ∷ "TRUE" ∷ "True" ∷ []) s
    then some true
    else if contains ("0" ∷ "f" ∷ "F" ∷ "false" ∷ "FALSE" ∷ "False" ∷ []) s
    then some false
    else none

abbrev parsed_value : Option String → Option Bool
parsed_value none = none
parsed_value (some value) = parse_bool value

abbrev is_true_text : Option String → Bool
is_true_text none = false
is_true_text (some value) = value == "true"

-- A Go map's zero value for a missing key.
abbrev or_empty : Option String → String
or_empty none = ""
or_empty (some s) = s

module _ (K : Kube) where
  open K use {
    digest, clear_creation_timestamp, set_generation, set_uid, clear_managed_fields,
    set_resource_version, Obj, Value, Requirement, Selector, Cluster, id_of, annotations,
    set_annotations, labels, object, as_map, as_string, nested_map, nested_string_map, nested_slice,
    as_requirement, label_selector, selects, list_pools,
  }

  unfoldable pub is_machine_config : Obj → Bool
  is_machine_config obj =
      (id_of obj).kind == machine_config_kind && (id_of obj).group == machine_config_group

  -- `machineConfigCoalescingBypassValue`: a value only for a valid boolean.
  unfoldable pub bypass_value : Obj → Option Bool
  bypass_value obj = parsed_value (lookup (annotations obj) bypass_annotation)

  -- `machineConfigCoalescingBypassed`: the MachineConfig's own value before the HCO's.
  unfoldable pub coalescing_bypassed : Obj → Obj → Bool
  coalescing_bypassed desired hco =
      if is_true_text (lookup (annotations desired) policy_bypass_annotation)
      then true
      else elim (bypass_value desired) [
        | some bypass ↦ bypass
        | none ↦ elim (bypass_value hco) [ some bypass ↦ bypass | none ↦ false ]
      ]

  -- `copyMachineConfigBypassAnnotation`.
  unfoldable pub copy_bypass_annotation : Obj → Obj → Obj
  copy_bypass_annotation desired live = elim (lookup (annotations live) bypass_annotation) [
    | none ↦ desired
    | some value ↦ set_annotations desired (insert (annotations desired) bypass_annotation value)
  ]

  requirements : List Value → Result (List Requirement)
  requirements [] = ok []
  requirements (item ∷ items) = elim (as_requirement item) [
    | err e ↦ err (wrap "malformed spec.machineConfigSelector.matchExpressions" e)
    | ok requirement ↦ elim (requirements items) [
      | err e ↦ err e
      | ok rest ↦ ok (requirement ∷ rest)
    ]
  ]

  -- `machineConfigPoolSelectorExpressions`.
  unfoldable pub selector_expressions : Map Value → Result (List Requirement)
  unfolding requirements
  selector_expressions raw = elim (nested_slice raw ("matchExpressions" ∷ [])) [
    | err e ↦ err (wrap "malformed spec.machineConfigSelector.matchExpressions" e)
    | ok none ↦ ok []
    | ok (some items) ↦ requirements items
  ]

  match_labels : Map Value → Result (Map String)
  match_labels raw = elim (nested_string_map raw ("matchLabels" ∷ [])) [
    | err e ↦ err (wrap "malformed spec.machineConfigSelector.matchLabels" e)
    | ok none ↦ ok []
    | ok (some found) ↦ ok found
  ]

  selector_of : Map Value → Result (Option Selector)
  selector_of raw = elim (match_labels raw) [
    | err e ↦ err e
    | ok found ↦ elim (selector_expressions raw) [
      | err e ↦ err e
      | ok expressions ↦ elim (label_selector found expressions) [
        | err e ↦ err (wrap "invalid spec.machineConfigSelector" e)
        | ok selector ↦ ok (some selector)
      ]
    ]
  ]

  -- `machineConfigPoolSelector`: none for a pool that selects nothing.
  unfoldable pub pool_selector : Obj → Result (Option Selector)
  unfolding selector_of match_labels
  pool_selector pool = elim (nested_map (object pool) ("spec" ∷ "machineConfigSelector" ∷ [])) [
    | err e ↦ err (wrap "malformed spec.machineConfigSelector" e)
    | ok none ↦ ok none
    | ok (some raw) ↦ selector_of raw
  ]

  abbrev any_selected : Option Selector → List Obj → Bool
  any_selected none objects = false
  any_selected (some selector) [] = false
  any_selected (some selector) (obj ∷ objects) =
      selects selector (labels obj) || any_selected (some selector) objects

  -- The loop of `matchingMachineConfigPools`: a pool is kept under its name; one malformed selector
  -- fails the whole call.
  match_pools : List Obj → List Obj → Map Obj → Result (Map Obj)
  match_pools objects [] matched = ok matched
  match_pools objects (pool ∷ pools) matched = elim (pool_selector pool) [
    | err e ↦ err e
    | ok selector ↦
        match_pools objects pools
          (if any_selected selector objects then insert matched (id_of pool).name pool else matched)
  ]

  abbrev values : Map Obj → List Obj
  values [] = []
  values ((name, pool) ∷ m) = pool ∷ values m

  unfoldable pub matching_pools : List Obj → Cluster → Result (List Obj)
  unfolding match_pools
  matching_pools objects cluster = elim (list_pools cluster) [
    | err e ↦ err e
    | ok pools ↦ elim (match_pools objects pools []) [
      | err e ↦ err e
      | ok matched ↦ ok (values matched)
    ]
  ]

  text_of : Option Value → String
  text_of none = ""
  text_of (some value) = or_empty (as_string value)

  add_condition : Option (Map Value) → Map String → Map String
  add_condition none result = result
  add_condition (some condition) result =
      let condition_type = text_of (lookup condition "type") in
      if contains rollout_condition_types condition_type
      then insert result condition_type (text_of (lookup condition "status"))
      else result

  collect_conditions : List Value → Map String → Map String
  collect_conditions [] result = result
  collect_conditions (item ∷ items) result =
      collect_conditions items (add_condition (as_map item) result)

  -- `MachineConfigPoolRolloutConditions`: the two relevant conditions with their status.
  unfoldable pub rollout_conditions : Obj → Map String
  unfolding collect_conditions add_condition text_of
  rollout_conditions pool = elim (nested_slice (object pool) ("status" ∷ "conditions" ∷ [])) [
    | err e ↦ []
    | ok none ↦ []
    | ok (some conditions) ↦ collect_conditions conditions []
  ]

  -- `machineConfigPoolReleasesStagedUpdate`: Degraded has no say.
  unfoldable pub releases_staged_update : Obj → Bool
  releases_staged_update pool =
      let conditions = rollout_conditions pool in
      or_empty (lookup conditions "RenderDegraded") == "True"
      || or_empty (lookup conditions "Updating") == "True"

  -- `machineConfigDesiredHash`: server-populated metadata never reaches the hash.
  unfoldable pub desired_hash : Obj → Result String
  desired_hash obj = digest (
      clear_creation_timestamp
        (set_generation (set_uid (clear_managed_fields (set_resource_version obj "")) "") 0))
