-- ===== src/Engine/Patcher/Prepare.antt =====
-- The first steps of `ReconcileAsset` in pkg/engine/patcher.go: rendering, root exclusion, the node
-- disruption policy, and the live object.
pub mod Silent
pub mod Passed
pub mod Allowed
use Prim.Native.String.{◌++◌}
use virt_platform_autopilot.Prelude.{
  ℕ, String, ◌==◌, Bool, true, false, not, ◌&&◌, Option, none, some, if◌then◌else◌,
}
use virt_platform_autopilot.Prelude.Maps.{lookup, insert}
use virt_platform_autopilot.Engine.NodeDisruption.Effective.{policy_ready}
use virt_platform_autopilot.Kube.{
  Dependency, Kube, ObjectId, Asset, message, wrap, Result, ok, err, is_not_found,
}
use virt_platform_autopilot.Throttling.TokenBucket as Bucket
use virt_platform_autopilot.Throttling.TokenBucket.{make_resource_key}
use virt_platform_autopilot.Throttling.ThrashingDetector as Detector
use virt_platform_autopilot.Engine.World.{
  deferred, set_compliance, clear_compliance, set_paused, asset_event, render_failed,
}
use virt_platform_autopilot.Engine.Flow.{
  Action, ◌>>=◌, ◌>>◌, pure, return_, raise, gets, context, emit, emit_if,
}
use virt_platform_autopilot.Engine.Applier
use virt_platform_autopilot.Engine.Applier.{get_direct}
use virt_platform_autopilot.Engine.Exclusion.{
  disabled_resources_annotation, parse_disabled_resources, excluded,
}
use virt_platform_autopilot.Engine.Coalescing.Pools.{is_machine_config, policy_bypass_annotation}

-- What one reconcile is given: the HCO, whether an event recorder and a direct reader are set, and
-- the time.
pub record Context (K : Kube) : Type 0 where
  pub hco : Kube.Obj K
  pub facts : Kube.Facts K
  pub has_recorder : Bool
  pub has_reader : Bool
  pub now : ℕ

abbrev pub text_or_empty : Option String → String
text_or_empty none = ""
text_or_empty (some s) = s

module _ (K : Kube) where
  -- The resource key of both throttles.
  abbrev pub key_of : Kube.Obj K → String
  key_of obj = make_resource_key (K.id_of obj).namespace (K.id_of obj).name (K.id_of obj).kind

module _ (K : Kube) (ctx : Context K) where
  open K use {Obj, Cluster, id_of, annotations, set_annotations, get, update, dry_run, render}
  open ctx use {hco, facts, has_recorder, has_reader, now}

  render_answer : Asset → Result (Option Obj) → Action K Obj
  render_answer asset (err e) = do
    emit_if has_recorder (asset_event render_failed asset.name)
    raise (wrap ("failed to render asset " ++ asset.name) e)
  render_answer asset (ok none) = return_ false
  render_answer asset (ok (some desired)) = pure desired

  -- Step 1: render the template; an empty rendering ends the call.
  unfoldable pub render_asset : Asset → Action K Obj
  unfolding render_answer
  render_asset asset = do
    rendered ← gets (λ s. render asset.name hco facts s.cluster)
    render_answer asset rendered

  is_disabled : Obj → String → Bool
  is_disabled desired annotation = elim (parse_disabled_resources K annotation) [
    | err e ↦ false
    | ok rules ↦ excluded K rules desired
  ]

  -- Root exclusion by the annotation of the HCO; an invalid annotation excludes nothing.
  unfoldable pub check_exclusion : Obj → Action K (Unit {0})
  unfolding is_disabled
  check_exclusion desired =
      let annotation = text_or_empty (lookup (annotations hco) disabled_resources_annotation) in
      if not (annotation == "") && is_disabled desired annotation
      then (do
        emit (clear_compliance (id_of desired))
        emit (set_paused (id_of desired) false)
        return_ false)
      else pure tt

  policy_answer : Obj → Result Bool → Action K Obj
  policy_answer desired (err e) = raise e
  policy_answer desired (ok false) = do
    emit (set_compliance (id_of desired) deferred)
    return_ false
  policy_answer desired (ok true) =
      pure (set_annotations desired (insert (annotations desired) policy_bypass_annotation "true"))

  prepare_policy : Obj → Option Dependency → Action K Obj
  unfolding policy_answer
  prepare_policy desired none = pure desired
  prepare_policy desired (some dependency) = do
    ready ← gets (λ s. policy_ready K hco facts dependency.policy_asset desired s.cluster)
    policy_answer desired ready

  -- A MachineConfig under a node disruption policy waits until the policy is in effect.
  unfoldable pub check_policy : Asset → Obj → Action K Obj
  unfolding prepare_policy
  check_policy asset desired =
      context ("node disruption policy readiness for asset " ++ asset.name)
        (prepare_policy desired asset.policy)

  direct_answer : Result Obj → Action K (Option Obj)
  direct_answer (ok live) = pure (some live)
  direct_answer (err e) =
      if is_not_found e then pure none else raise (wrap "failed to get live object" e)

  cached_answer : ObjectId → Result Obj → Action K (Option Obj)
  unfolding direct_answer
  cached_answer id (ok live) = pure (some live)
  cached_answer id (err e) =
      if is_not_found e
      then (do direct ← gets (λ s. get_direct K has_reader id s.cluster); direct_answer direct)
      else raise (wrap "failed to get live object" e)

  -- The live object: from the cache, or, for adoption, past it.
  unfoldable pub get_live : Obj → Action K (Option Obj)
  unfolding cached_answer
  get_live desired = do
    cached ← gets (λ s. get (id_of desired) s.cluster)
    cached_answer (id_of desired) cached
