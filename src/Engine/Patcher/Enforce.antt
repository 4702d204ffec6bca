-- ===== src/Engine/Patcher/Enforce.antt =====
-- The last steps of `ReconcileAsset` in pkg/engine/patcher.go: drift, staging, the namespace guard, the
-- anti-thrashing gate and the apply.
pub mod Tokens
pub mod Pause
pub mod Gate
use text.Mathlib.Text.{find?}
use Prim.Native.String.{◌++◌}
use virt_platform_autopilot.Prelude.{
  String, ◌==◌, Bool, true, false, not, ◌&&◌, Option, none, some, is_some, if◌then◌else◌,
}
use virt_platform_autopilot.Prelude.Maps.{insert}
use virt_platform_autopilot.Kube.{
  Kube, ObjectId, Asset, Error, message, wrap, throttled, Result, ok, err, is_not_found, error_text,
  Stage,
}
use virt_platform_autopilot.Throttling.TokenBucket as Bucket
use virt_platform_autopilot.Throttling.TokenBucket.{TokenBucket, make_resource_key}
use virt_platform_autopilot.Throttling.ThrashingDetector as Detector
use virt_platform_autopilot.Overrides.Validation.{annotation_reconcile_paused}
use virt_platform_autopilot.Engine.World
use virt_platform_autopilot.Engine.World.{
  Effect, Compliance, failed, synced, deferred, set_compliance, clear_compliance, set_paused,
  set_customization, clear_customization, inc_thrashing, delete_asset_metrics, event, asset_event,
  pools_event, api_apply, api_update, asset_applied, drift_corrected, patch_applied, unmanaged_mode,
  drift_detected, thrashing_detected, invalid_patch, invalid_ignore_fields, apply_failed,
  render_failed, update_released,
}
use virt_platform_autopilot.Engine.Flow.{
  next, fail, Action, ◌>>=◌, ◌>>◌, pure, return_, attempt, raise, gets, context, modify, emit,
  emit_if, when, write,
}
use virt_platform_autopilot.Engine.Drift.{detect_drift}
use virt_platform_autopilot.Engine.Applier
use virt_platform_autopilot.Engine.Applier.{ensure_managed_by_label, get_direct}
use virt_platform_autopilot.Engine.Coalescing.{coalesce_update, clear_staging}
use virt_platform_autopilot.Engine.Coalescing.Pools.{is_machine_config, copy_bypass_annotation}
use virt_platform_autopilot.Engine.Patcher.Prepare.{Context, key_of}

-- `isNamespaceNotFound`.
unfoldable pub is_namespace_not_found : Error → Bool
unfolding error_text
is_namespace_not_found e = is_not_found e && is_some (find? (error_text e) "namespaces \"")

abbrev pub namespace_id : String → ObjectId
namespace_id name = record {
  group = "";
  version = "v1";
  kind = "Namespace";
  namespace = "";
  name = name;
}

module _ (K : Kube) (ctx : Context K) where
  open K use {Obj, Cluster, id_of, annotations, set_annotations, get, update}
  open ctx use {hco, has_recorder, now}

  -- The label, and the live bypass annotation, are on the object before it is compared.
  unfoldable pub normalize : Obj → Option Obj → Obj
  normalize desired none = ensure_managed_by_label K desired
  normalize desired (some live) =
      let labelled = ensure_managed_by_label K desired in
      if is_machine_config K labelled then copy_bypass_annotation K labelled live else labelled

  drift_answer : Obj → Result Bool → Action K (Unit {0})
  drift_answer desired (ok true) = pure tt
  drift_answer desired (ok false) = do
    emit (set_compliance (id_of desired) synced)
    emit (set_paused (id_of desired) false)
    return_ false
  drift_answer desired (err e) = do
    emit (set_compliance (id_of desired) failed)
    raise (wrap "drift detection failed" e)

  -- Step 5: without drift the call ends; a failed dry run never counts as drift.
  unfoldable pub check_drift : Obj → Option Obj → Action K (Unit {0})
  unfolding drift_answer
  check_drift desired none = pure tt
  check_drift desired (some live) = do
    r ← gets (λ s. detect_drift K desired live s.cluster)
    drift_answer desired r

  -- An update of a live MachineConfig may have to wait for a pool.
  unfoldable pub check_coalescing : Obj → Option Obj → String → Action K (Unit {0})
  check_coalescing desired none hash = pure tt
  check_coalescing desired (some live) hash = do
    released ←
        context "machineconfig rollout coalescing"
          (coalesce_update K has_recorder now hco desired live hash)
    if released
        then emit_if has_recorder (event drift_detected (id_of desired))
        else (do emit (set_compliance (id_of desired) deferred); return_ false)

  namespace_answer : String → Result Obj → Action K (Unit {0})
  namespace_answer ns (ok o) = pure tt
  namespace_answer ns (err e) =
      if is_not_found e
      then return_ false
      else raise (wrap ("failed to verify target namespace " ++ ns) e)

  -- The namespace is looked up before a token is spent.
  unfoldable pub check_namespace : Obj → Action K (Unit {0})
  unfolding namespace_answer
  check_namespace desired =
      let ns = (id_of desired).namespace in
      if ns == ""
      then pure tt
      else (do r ← gets (λ s. get (namespace_id ns) s.cluster); namespace_answer ns r)

  update_pause : Result Obj → Action K (Result (Unit {0}))
  update_pause (err e) = pure (err (wrap "failed to get fresh copy for pause annotation" e))
  update_pause (ok fresh) = do
    emit (api_update (id_of fresh))
    write (
        update
          (set_annotations fresh (insert (annotations fresh) annotation_reconcile_paused "true")))

  -- `setPauseAnnotation`, on a fresh copy.
  unfoldable pub set_pause_annotation : Obj → Action K (Result (Unit {0}))
  unfolding update_pause
  set_pause_annotation live = do fresh ← gets (λ s. get (id_of live) s.cluster); update_pause fresh

  pause_answer : Obj → Result (Unit {0}) → Action K (Unit {0})
  pause_answer desired (ok u) = emit (set_paused (id_of desired) true)
  pause_answer desired (err e) = pure tt

  pub pause_live : Obj → Option Obj → Action K (Unit {0})
  unfolding pause_answer
  pause_live desired none = pure tt
  pause_live desired (some live) = do r ← set_pause_annotation live; pause_answer desired r

  -- The one-shot gate of the metric and its event.
  report_thrashing : Obj → Action K (Unit {0})
  report_thrashing desired = do
    first ← λ s.
        let (thrashing', r) = Detector.should_emit_metric s.thrashing (key_of K desired) in
        (next r, record s { thrashing = thrashing' })
    when first (do
      emit (inc_thrashing (id_of desired))
      emit_if has_recorder (event thrashing_detected (id_of desired)))

  -- A refused update: the third in a row pauses the resource.
  unfoldable pub refuse : Obj → Option Obj → Bucket.ThrottledError → Action K (Unit {0})
  unfolding pause_live report_thrashing
  refuse desired live e = do
    pauses ← λ s.
        let (thrashing', r) = Detector.record_throttle s.thrashing (key_of K desired) in
        (next r, record s { thrashing = thrashing' })
    if pauses
        then (do
          report_thrashing desired
          pause_live desired live
          raise (message "reconciliation paused due to edit war"))
        else (do
          emit_if has_recorder (event World.EventReason.throttled (id_of desired))
          raise (throttled e))

  take_answer :
      Option (TokenBucket × Option Bucket.ThrottledError) → Action K (Option Bucket.ThrottledError)
  take_answer none s = (fail (message "integer divide by zero"), s)
  take_answer (some (throttle', r)) s = (next r, record s { throttle = throttle' })

  -- Step 6: a token of the resource's bucket. (A bucket of capacity zero panics.)
  take_token : Obj → Action K (Option Bucket.ThrottledError)
  unfolding take_answer
  take_token desired s = take_answer (Bucket.record_update s.throttle now (key_of K desired)) s

  gate_answer : Obj → Option Obj → Option Bucket.ThrottledError → Action K (Unit {0})
  gate_answer desired live none = pure tt
  gate_answer desired live (some e) = refuse desired live e

  unfoldable pub pass_gate : Obj → Option Obj → Action K (Unit {0})
  unfolding take_token gate_answer
  pass_gate desired live = do refusal ← take_token desired; gate_answer desired live refusal

  report_release : Obj → Result (Option Stage) → Action K (Unit {0})
  report_release desired (ok (some stage)) =
      emit_if has_recorder (pools_event update_released (id_of desired).name stage.matching_pools)
  report_release desired _ = pure tt

  -- What follows a successful apply.
  unfoldable pub conclude_applied : Asset → Obj → Option Obj → Action K Bool
  unfolding report_release
  conclude_applied asset desired live = do
    emit (set_compliance (id_of desired) synced)
    released ← attempt (clear_staging K has_recorder now hco desired)
    report_release desired released
    modify (λ s. record s { thrashing = Detector.record_success s.thrashing (key_of K desired) })
    emit (set_paused (id_of desired) false)
    emit_if has_recorder (asset_event asset_applied asset.name)
    emit_if (is_some live && has_recorder) (event drift_corrected (id_of desired))
    pure true

  apply_answer : Asset → Obj → Option Obj → Result Bool → Action K Bool
  apply_answer asset desired live (ok true) = conclude_applied asset desired live
  apply_answer asset desired live (ok false) = do
    emit (set_compliance (id_of desired) synced)
    pure false
  apply_answer asset desired live (err e) =
      if not ((id_of desired).namespace == "") && is_namespace_not_found e
      then return_ false
      else (do
        emit (set_compliance (id_of desired) failed)
        emit_if has_recorder (asset_event apply_failed asset.name)
        raise (wrap ("failed to apply asset " ++ asset.name) e))

  -- Step 7: the server-side apply.
  unfoldable pub apply_desired : Asset → Obj → Option Obj → Action K Bool
  unfolding apply_answer
  apply_desired asset desired live = do
    emit (api_apply (id_of desired))
    r ← λ s.
        let (r, cluster') = Applier.apply K desired s.cluster in
        (next r, record s { cluster = cluster' })
    apply_answer asset desired live r
