-- ===== src/Engine/Patcher/Customize.antt =====
-- The middle steps of `ReconcileAsset` in pkg/engine/patcher.go: the pause, the user's opt-out, patch and
-- ignored fields.
pub mod Silent
pub mod Sensitive
use virt_platform_autopilot.Prelude.{
  String, ◌==◌, true, false, Option, none, some, List, [], ◌∷◌, is_some, leb, if◌then◌else◌,
}
use virt_platform_autopilot.Prelude.Maps.{lookup, insert, delete}
use virt_platform_autopilot.Kube.{Kube, ObjectId, Error, wrap, Result, ok, err}
use virt_platform_autopilot.Throttling.TokenBucket as Bucket
use virt_platform_autopilot.Throttling.TokenBucket.{TokenBucket, make_resource_key}
use virt_platform_autopilot.Throttling.ThrashingDetector as Detector
use virt_platform_autopilot.Overrides.Validation.{
  patch_annotation, annotation_ignore_fields, is_paused, is_unmanaged, apply_json_patch,
}
use virt_platform_autopilot.Overrides.Annotations.{validate_annotations}
use virt_platform_autopilot.Overrides.Pointer.{mask_ignored_fields}
use virt_platform_autopilot.Engine.World
use virt_platform_autopilot.Engine.World.{
  clear_compliance, set_paused, set_customization, clear_customization, event, patch_applied,
  unmanaged_mode, invalid_patch, invalid_ignore_fields,
}
use virt_platform_autopilot.Engine.Flow.{
  State, Action, ◌>>=◌, ◌>>◌, pure, return_, raise, lift, gets, context, modify, emit, emit_if,
  when,
}
use virt_platform_autopilot.Engine.Applier
use virt_platform_autopilot.Engine.Coalescing.Pools.{is_machine_config, desired_hash}
use virt_platform_autopilot.Engine.Patcher.Prepare.{Context, key_of, text_or_empty}

abbrev customization_types : List String
customization_types = "patch" ∷ "ignore" ∷ "unmanaged" ∷ []

module _ (K : Kube) (ctx : Context K) where
  open K use {Obj, id_of, annotations, set_annotations}
  open ctx use {has_recorder}

  -- Step 1.5: a paused object is left alone.
  unfoldable pub check_paused : Obj → Option Obj → Action K (Unit {0})
  check_paused desired none = pure tt
  check_paused desired (some live) =
      if is_paused K live
      then (do emit (set_paused (id_of desired) true); return_ false)
      else pure tt

  abbrev forget_key : String → State K → State K
  forget_key key s = record s {
    thrashing = Detector.reset s.thrashing key;
    throttle = Bucket.reset s.throttle key;
  }

  -- Step 1.6: the pause annotation is gone, so the count that led to it is forgotten.
  unfoldable pub reset_thrashing : Obj → Option Obj → Action K (Unit {0})
  reset_thrashing desired none = pure tt
  reset_thrashing desired (some live) = do
    attempts ← gets (λ s. Detector.get_attempts s.thrashing (key_of K desired))
    if leb Detector.thrashing_threshold attempts
        then modify (forget_key (key_of K desired))
        else pure tt

  clear_all : ObjectId → List String → Action K (Unit {0})
  clear_all id [] = pure tt
  clear_all id (ct ∷ cts) = do emit (clear_customization id ct); clear_all id cts

  unfoldable pub clear_customizations : Obj → Option Obj → Action K (Unit {0})
  unfolding clear_all
  clear_customizations desired none = pure tt
  clear_customizations desired (some live) = clear_all (id_of desired) customization_types

  -- Step 2: the user's opt-out.
  unfoldable pub check_unmanaged : Obj → Option Obj → Action K (Unit {0})
  check_unmanaged desired none = pure tt
  check_unmanaged desired (some live) =
      if is_unmanaged K live
      then (do
        emit (clear_compliance (id_of desired))
        emit (set_paused (id_of desired) false)
        emit (set_customization (id_of desired) "unmanaged")
        emit_if has_recorder (event unmanaged_mode (id_of desired))
        return_ false)
      else pure tt

  -- A patch that applies gives the new object; one that fails leaves the copy with the annotation.
  patch_result : Obj → Result (Option Obj) → Action K Obj
  patch_result desired (err e) = do
    emit_if has_recorder (event invalid_patch (id_of desired))
    pure desired
  patch_result desired (ok none) = pure desired
  patch_result desired (ok (some patched)) = do
    emit_if has_recorder (event patch_applied (id_of patched))
    pure patched

  -- A patch that does not validate is dropped with its annotation.
  validate_and_patch : Obj → Option Error → Action K Obj
  unfolding patch_result
  validate_and_patch marked (some e) = do
    emit_if has_recorder (event invalid_patch (id_of marked))
    pure (set_annotations marked (delete (annotations marked) patch_annotation))
  validate_and_patch marked none = patch_result marked (apply_json_patch K marked)

  patch_with : Obj → String → Action K Obj
  unfolding validate_and_patch
  patch_with desired patch_str = if patch_str == "" then pure desired else (do
    emit (set_customization (id_of desired) "patch")
    let marked = set_annotations desired (insert (annotations desired) patch_annotation patch_str)
    validate_and_patch marked (validate_annotations K marked))

  -- Step 3: the user's patch, copied from the live object.
  unfoldable pub apply_user_patch : Obj → Option Obj → Action K Obj
  unfolding patch_with
  apply_user_patch desired none = pure desired
  apply_user_patch desired (some live) =
      patch_with desired (text_or_empty (lookup (annotations live) patch_annotation))

  -- The hash of a MachineConfig update, taken before the masking.
  unfoldable pub hash_update : Obj → Option Obj → Action K String
  hash_update desired none = pure ""
  hash_update desired (some live) =
      if is_machine_config K desired
      then context "machineconfig rollout coalescing" (lift (desired_hash K desired))
      else pure ""

  mask_answer : Obj → Result Obj → Action K Obj
  mask_answer live (ok masked) = pure masked
  mask_answer live (err e) = do
    emit_if has_recorder (event invalid_ignore_fields (id_of live))
    raise (wrap "failed to mask ignored fields" e)

  -- Step 4: the fields that the user keeps.
  unfoldable pub mask_fields : Obj → Option Obj → Action K Obj
  unfolding mask_answer
  mask_fields desired none = pure desired
  mask_fields desired (some live) = do
    when (is_some (lookup (annotations live) annotation_ignore_fields))
        (emit (set_customization (id_of desired) "ignore"))
    mask_answer live (mask_ignored_fields K desired live)
