-- ===== src/Engine/Patcher.antt =====
-- pkg/engine/patcher.go: the Patched Baseline algorithm for one asset, and the loop over the assets. One
-- clock reading, `now`, stands for the readings of one call.
pub mod Prepare
pub mod Customize
pub mod Enforce
pub mod Payment
pub mod Permitted
pub mod Barrier
use text.Mathlib.Text.{find?}
use virt_platform_autopilot.Prelude.{
  ℕ, zero, suc, ◌+◌, String, ◌==◌, Bool, true, false, not, ◌&&◌, ◌||◌, Option, none, some, List, [],
  ◌∷◌, ◌++◌, is_some, leb, if◌then◌else◌,
}
use virt_platform_autopilot.Prelude.Maps.{Map, lookup, insert, delete}
use virt_platform_autopilot.Kube.{
  Kube, ObjectId, Asset, Error, message, wrap, throttled, Result, ok, err, is_not_found, error_text,
  Stage,
}
use virt_platform_autopilot.Throttling.TokenBucket as Bucket
use virt_platform_autopilot.Throttling.TokenBucket.{TokenBucket, make_resource_key}
use virt_platform_autopilot.Throttling.ThrashingDetector as Detector
use virt_platform_autopilot.Overrides.Validation.{
  patch_annotation, annotation_ignore_fields, annotation_reconcile_paused, is_paused, is_unmanaged,
  apply_json_patch,
}
use virt_platform_autopilot.Overrides.Annotations.{validate_annotations}
use virt_platform_autopilot.Overrides.Pointer.{mask_ignored_fields}
use virt_platform_autopilot.Engine.World.{
  Effect, Compliance, failed, synced, deferred, set_compliance, clear_compliance, set_paused,
  set_customization, clear_customization, inc_thrashing, delete_asset_metrics, event, asset_event,
  pools_event, api_apply, api_update, asset_applied, drift_corrected, patch_applied, unmanaged_mode,
  drift_detected, thrashing_detected, invalid_patch, invalid_ignore_fields, apply_failed,
  render_failed, update_released,
}
use virt_platform_autopilot.Engine.Flow.{
  State, Flow, next, stop, fail, Action, ◌>>=◌, ◌>>◌, pure, return_, attempt, raise, lift, gets,
  context, modify, emit, emit_if, when, write,
}
use virt_platform_autopilot.Engine.Drift.{detect_drift}
use virt_platform_autopilot.Engine.Applier
use virt_platform_autopilot.Engine.Applier.{ensure_managed_by_label, get_direct}
use virt_platform_autopilot.Engine.Exclusion.{
  disabled_resources_annotation, parse_disabled_resources, excluded,
}
use virt_platform_autopilot.Engine.Coalescing.{coalesce_update, clear_staging}
use virt_platform_autopilot.Engine.Coalescing.Pools.{
  is_machine_config, copy_bypass_annotation, policy_bypass_annotation,
}
use Prepare.{Context, key_of, text_or_empty}
use Prepare.{render_asset, check_exclusion, check_policy, get_live}
use Customize.{
  check_paused, reset_thrashing, clear_customizations, check_unmanaged, apply_user_patch,
  hash_update, mask_fields,
}
use Enforce.{normalize, check_drift, check_coalescing, check_namespace, pass_gate, apply_desired}

module _ (K : Kube) (ctx : Context K) where
  open K use {Obj, id_of, render}
  open ctx use {hco, facts, has_recorder, now}

  -- Steps 5 to 7, on the effective desired state.
  unfoldable pub enforce : Asset → Obj → Option Obj → String → Action K Bool
  enforce asset desired live hash = do
    check_drift K ctx desired live
    check_coalescing K ctx desired live hash
    check_namespace K ctx desired
    pass_gate K ctx desired live
    apply_desired K ctx asset desired live

  -- Steps 3 and 4, then the rest.
  unfoldable pub customize : Asset → Obj → Option Obj → Action K Bool
  customize asset desired live = do
    patched ← apply_user_patch K ctx desired live
    hash ← hash_update K ctx patched live
    masked ← mask_fields K ctx patched live
    enforce asset (normalize K ctx masked live) live hash

  -- Steps 1.5 to 2, then the rest.
  unfoldable pub manage : Asset → Obj → Option Obj → Action K Bool
  manage asset desired live = do
    check_paused K ctx desired live
    reset_thrashing K ctx desired live
    clear_customizations K ctx desired live
    check_unmanaged K ctx desired live
    customize asset desired live

  unfoldable pub reconcile_action : Asset → Action K Bool
  reconcile_action asset = do
    desired ← render_asset K ctx asset
    check_exclusion K ctx desired
    prepared ← check_policy K ctx asset desired
    live ← get_live K ctx prepared
    manage asset prepared live

  abbrev result_of : Flow Bool → Result Bool
  result_of (next b) = ok b
  result_of (stop b) = ok b
  result_of (fail e) = err e

  -- `ReconcileAsset`.
  unfoldable pub reconcile_asset : Asset → State K → Result Bool × State K
  reconcile_asset asset s = (result_of (reconcile_action asset s).0, (reconcile_action asset s).1)

  -- The counters of `ReconcileAssets`.
  pub record Tally : Type 0 where
    pub applied_count : ℕ
    pub failures : List (String × Error)

  abbrev count : Tally → Asset → Result Bool → Tally
  count t asset (err e) = record t { failures = t.failures ++ (asset.name, e) ∷ [] }
  count t asset (ok true) = record t { applied_count = t.applied_count + 1 }
  count t asset (ok false) = t

  unfoldable pub reconcile_each : List Asset → Tally → State K → Tally × State K
  reconcile_each [] t s = (t, s)
  reconcile_each (asset ∷ assets) t s =
      let (r, s') = reconcile_asset asset s in reconcile_each assets (count t asset r) s'

  abbrev clean_up : State K → State K
  clean_up s = record s {
    throttle = (Bucket.cleanup_stale s.throttle Bucket.default_ttl ctx.now).0;
  }

  -- `ReconcileAssets`: stale buckets go first, and an error does not end the loop. The failures, each
  -- with its asset's name, make up the error of the call; without one the error is nil.
  unfoldable pub reconcile_assets : List Asset → State K → ℕ × List (String × Error) × State K
  reconcile_assets assets s =
      let (t, s') =
        reconcile_each assets (record { applied_count = 0; failures = [] }) (clean_up s) in
      (t.applied_count, t.failures, s')

  clean_up_rendered : Result (Option Obj) → Action K (Unit {0})
  clean_up_rendered (err e) = pure tt
  clean_up_rendered (ok none) = pure tt
  clean_up_rendered (ok (some desired)) = do
    emit (delete_asset_metrics (id_of desired))
    cleared ← attempt (clear_staging K has_recorder now hco desired)
    pure tt

  -- `CleanupExcludedAsset`: an asset that left the active set loses its metrics and its staged update.
  unfoldable pub cleanup_excluded_asset : Asset → Action K (Unit {0})
  unfolding clean_up_rendered
  cleanup_excluded_asset asset = do
    rendered ← gets (λ s. render asset.name hco facts s.cluster)
    clean_up_rendered rendered
