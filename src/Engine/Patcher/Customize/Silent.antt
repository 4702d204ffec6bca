-- ===== src/Engine/Patcher/Customize/Silent.antt =====
-- The middle steps of `ReconcileAsset` neither apply an object nor spend a token, but for the reset
-- of a resource whose pause the user lifted.
use virt_platform_autopilot.Prelude.{
  String, ◌≡◌, inl, inr, leb, if◌then◌else◌, refl, Bool, true, false, Option, none, some, List, [],
  ◌∷◌,
}
use virt_platform_autopilot.Kube.{Kube, ObjectId, Error, Result, ok, err}
use virt_platform_autopilot.Engine.Flow.{State, modify, pure, ◌>>=◌}
use virt_platform_autopilot.Engine.Flow.Silent.{
  Silent, Silent-bind, Silent-emit, silent_rules, applies,
}
use virt_platform_autopilot.Engine.World.{clear_customization}
use virt_platform_autopilot.Engine.Patcher.Prepare.{Context, key_of}
use virt_platform_autopilot.Throttling.ThrashingDetector as Detector
use virt_platform_autopilot.Engine.Flow.Payment.{OrReset}
use virt_platform_autopilot.Engine.Patcher.Customize.{
  customization_types, forget_key, reset_thrashing, check_paused, clear_all, clear_customizations,
  check_unmanaged, patch_result, validate_and_patch, patch_with, apply_user_patch, hash_update,
  mask_answer, mask_fields,
}

module _ (K : Kube) (ctx : Context K) where
  open K use {Obj}

  pub check_paused-Silent :
      (desired : Obj) (live : Option Obj) → Silent (check_paused K ctx desired live)
  unfolding check_paused
  check_paused-Silent desired none = search silent_rules
  check_paused-Silent desired (some live) = search silent_rules

  clear_all-Silent : (id : ObjectId) (cts : List String) → Silent (clear_all K ctx id cts)
  unfolding clear_all
  clear_all-Silent id [] = search silent_rules
  clear_all-Silent id (ct ∷ cts) =
      Silent-bind _ _ (Silent-emit (clear_customization id ct) refl) (λ u. clear_all-Silent id cts)

  pub clear_customizations-Silent :
      (desired : Obj) (live : Option Obj) → Silent (clear_customizations K ctx desired live)
  unfolding clear_customizations
  clear_customizations-Silent desired none = search silent_rules
  clear_customizations-Silent desired (some live) =
      clear_all-Silent (K.id_of desired) customization_types

  pub check_unmanaged-Silent :
      (desired : Obj) (live : Option Obj) → Silent (check_unmanaged K ctx desired live)
  unfolding check_unmanaged
  check_unmanaged-Silent desired none = search silent_rules
  check_unmanaged-Silent desired (some live) = search silent_rules depth 9

  patch_result-Silent :
      (desired : Obj) (r : Result (Option Obj)) → Silent (patch_result K ctx desired r)
  unfolding patch_result
  patch_result-Silent desired (err e) = search silent_rules
  patch_result-Silent desired (ok none) = search silent_rules
  patch_result-Silent desired (ok (some patched)) = search silent_rules

  validate_and_patch-Silent :
      (marked : Obj) (e : Option Error) → Silent (validate_and_patch K ctx marked e)
  unfolding validate_and_patch
  validate_and_patch-Silent marked (some e) = search silent_rules
  validate_and_patch-Silent marked none = patch_result-Silent marked _

  patch_with-Silent : (desired : Obj) (s : String) → Silent (patch_with K ctx desired s)
  unfolding patch_with
  patch_with-Silent desired s = search (silent_rules, validate_and_patch-Silent)

  pub apply_user_patch-Silent :
      (desired : Obj) (live : Option Obj) → Silent (apply_user_patch K ctx desired live)
  unfolding apply_user_patch
  apply_user_patch-Silent desired none = search silent_rules
  apply_user_patch-Silent desired (some live) = patch_with-Silent desired _

  pub hash_update-Silent :
      (desired : Obj) (live : Option Obj) → Silent (hash_update K ctx desired live)
  unfolding hash_update
  hash_update-Silent desired none = search silent_rules
  hash_update-Silent desired (some live) = search silent_rules

  mask_answer-Silent : (live : Obj) (r : Result Obj) → Silent (mask_answer K ctx live r)
  unfolding mask_answer
  mask_answer-Silent live (ok masked) = search silent_rules
  mask_answer-Silent live (err e) = search silent_rules

  pub mask_fields-Silent :
      (desired : Obj) (live : Option Obj) → Silent (mask_fields K ctx desired live)
  unfolding mask_fields
  mask_fields-Silent desired none = search silent_rules
  mask_fields-Silent desired (some live) = search (silent_rules, mask_answer-Silent)

  reset_if :
      (b : Bool) (key : String) (s : State K)
      → let t = ((if b then modify (forget_key K ctx key) else pure tt) s).1 in
        (applies t.trace ≡ applies s.trace) × OrReset s.throttle t.throttle
  reset_if true key s = (refl, inr (key, refl))
  reset_if false key s = (refl, inl refl)

  -- What the reset step leaves: the applies as they were, and the limiter with a bucket less or not.
  pub reset_leaves :
      (desired : Obj) (live : Option Obj) (s : State K)
      → (applies (reset_thrashing K ctx desired live s).1.trace ≡ applies s.trace)
        × OrReset s.throttle (reset_thrashing K ctx desired live s).1.throttle
  unfolding reset_thrashing ◌>>=◌
  reset_leaves desired none s = (refl, inl refl)
  reset_leaves desired (some live) s =
      reset_if
        (leb Detector.thrashing_threshold (Detector.get_attempts s.thrashing (key_of K desired)))
        (key_of K desired) s
