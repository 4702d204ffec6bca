-- ===== src/Engine/World.antt =====
-- The state that pkg/engine works on, and the outputs of pkg/observability and pkg/util/events.go: the
-- calls that set metrics and send events are kept in a trace, in their order, with the writes to
-- the API server.
use virt_platform_autopilot.Prelude.{ℕ, String, Bool, true, false, List, [], ◌∷◌, ◌++◌}
use virt_platform_autopilot.Kube.{Kube, ObjectId}

pub data Compliance : Type 0 where
  failed synced deferred : Compliance

pub data TombstoneStatus : Type 0 where
  exists deleted error skipped : TombstoneStatus

pub data EventReason : Type 0 where
  asset_applied drift_corrected patch_applied unmanaged_mode drift_detected throttled : EventReason
  thrashing_detected invalid_patch invalid_ignore_fields apply_failed render_failed : EventReason
  update_staged update_released : EventReason
  tombstone_deleted tombstone_failed tombstone_skipped : EventReason
  crd_missing reconcile_succeeded crd_discovered : EventReason

pub data Effect : Type 0 where
  set_compliance : ObjectId → Compliance → Effect
  clear_compliance : ObjectId → Effect
  set_paused : ObjectId → Bool → Effect
  set_customization clear_customization : ObjectId → String → Effect
  inc_thrashing : ObjectId → Effect
  set_tombstone_status : ObjectId → TombstoneStatus → Effect
  delete_asset_metrics : ObjectId → Effect
  set_update_staged : String → List String → ℕ → Effect
  clear_update_staged : String → Effect
  event : EventReason → ObjectId → Effect
  asset_event : EventReason → String → Effect
  pools_event : EventReason → String → List String → Effect
  api_apply api_update api_delete : ObjectId → Effect
  set_tls_profile : ObjectId → Effect
  set_dependency : String → String → Bool → Bool → Effect

-- What one reconciler sees and leaves behind.
pub record World (K : Kube) : Type 0 where
  pub cluster : Kube.Cluster K
  pub trace : List Effect

module _ (K : Kube) where
  abbrev pub emit : World K → Effect → World K
  emit w e = record w { trace = w.trace ++ e ∷ [] }

  -- An event is sent only where a recorder is set.
  abbrev pub emit_if : Bool → World K → Effect → World K
  emit_if true w e = emit w e
  emit_if false w e = w
