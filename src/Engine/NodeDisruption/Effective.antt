-- ===== src/Engine/NodeDisruption/Effective.antt =====
-- Whether the policy of a MachineConfig asset is in effect: the rendering of the policy asset and the status
-- of the MachineConfiguration singleton, in node_disruption_policy.go.
pub mod Ready
use Prim.Native.String.{◌++◌}
use virt_platform_autopilot.Prelude.{
  String, ◌==◌, Bool, true, false, not, ◌&&◌, ◌||◌, Option, none, some, List, [], ◌∷◌,
  if◌then◌else◌,
}
use virt_platform_autopilot.Prelude.Maps.{Map}
use virt_platform_autopilot.Kube.{
  Kube, ObjectId, message, wrap, Error, Result, ok, err, is_not_found, is_no_match,
}
use virt_platform_autopilot.Kube.Results.{◌>>=◌, ◌>>◌, guard, in_context}
use virt_platform_autopilot.Engine.Coalescing.Pools.{is_machine_config}
use virt_platform_autopilot.Engine.NodeDisruption.Coverage.{covers_machine_config}
use virt_platform_autopilot.Engine.NodeDisruption.Matching.{entries_match}

-- The singleton `operator.openshift.io/v1`, `MachineConfiguration`, `cluster`.
abbrev pub machine_configuration_id : ObjectId
machine_configuration_id = record {
  group = "operator.openshift.io";
  version = "v1";
  kind = "MachineConfiguration";
  namespace = "";
  name = "cluster";
}

abbrev pub is_machine_configuration : ObjectId → Bool
is_machine_configuration id =
    id.group == machine_configuration_id.group
    && id.version == machine_configuration_id.version
    && id.kind == machine_configuration_id.kind
    && id.name == machine_configuration_id.name

module _ (K : Kube) where
  open K use {Obj, Value, Cluster, Facts, id_of, object, nested_map, get, render}

  required : String → Option (Map Value) → Result (Option (Map Value))
  required name none =
      err (message ("node disruption policy asset has no spec.nodeDisruptionPolicy: " ++ name))
  required name (some want) = ok (some want)

  -- What the rendered asset says; an empty rendering gives Go's nil map.
  policy_of : String → Option Obj → Result (Option (Map Value))
  unfolding required
  policy_of name none = ok none
  policy_of name (some policy) = do
    guard (is_machine_configuration (id_of policy))
        (message ("node disruption policy asset must render the MachineConfiguration: " ++ name))
    want ←
        in_context ("read node disruption policy asset " ++ name)
          (nested_map (object policy) ("spec" ∷ "nodeDisruptionPolicy" ∷ []))
    required name want

  -- `renderNodeDisruptionPolicy`
  unfoldable pub render_policy : Obj → Facts → Option String → Cluster → Result (Option (Map Value))
  unfolding policy_of
  render_policy hco facts none cluster =
      err (message "node disruption policy asset is not resolved")
  render_policy hco facts (some name) cluster = do
    policy ←
        in_context ("render node disruption policy asset " ++ name) (render name hco facts cluster)
    policy_of name policy

  match_status : Map Value → Option (Map Value) → Result Bool
  match_status want none = ok false
  match_status want (some status) = entries_match K status want

  read_status : Map Value → Result Obj → Result Bool
  unfolding match_status
  read_status want (err e) =
      if is_not_found e || is_no_match e then ok false else err (wrap "read MachineConfiguration" e)
  read_status want (ok policy) = do
    status ←
        nested_map (object policy)
          ("status" ∷ "nodeDisruptionPolicyStatus" ∷ "clusterPolicies" ∷ [])
    match_status want status

  -- `nodeDisruptionPolicyEffective`
  unfoldable pub policy_effective : Option (Map Value) → Cluster → Result Bool
  unfolding read_status
  policy_effective none cluster = ok false
  policy_effective (some want) cluster = read_status want (get machine_configuration_id cluster)

  -- A nil map has no field.
  abbrev pub or_nil : Option (Map Value) → Map Value
  or_nil none = []
  or_nil (some want) = want

  -- `prepareNodeDisruptionPolicyDependentMachineConfig`, without the annotation that it sets.
  unfoldable pub policy_ready : Obj → Facts → Option String → Obj → Cluster → Result Bool
  policy_ready hco facts policy_asset desired cluster = do
    guard (is_machine_config K desired)
        (message "node disruption policy dependency did not render a MachineConfig")
    want ← render_policy hco facts policy_asset cluster
    covers_machine_config K (or_nil want) desired
    policy_effective want cluster
