-- ===== src/Engine/Drift.antt =====
-- pkg/engine/drift.go: drift is a difference between the dry-run result and the live object, with what
-- changes at run time removed from both.
use virt_platform_autopilot.Prelude.{
  String, ◌==◌, Bool, true, not, ◌||◌, Option, none, some, [], ◌∷◌, if◌then◌else◌,
}
use virt_platform_autopilot.Prelude.Maps.{Map, lookup, insert, delete}
use virt_platform_autopilot.Kube.{Kube, Result, ok, err, wrap}

-- The loop over the metadata: only these four keys are kept.
abbrev is_kept : String → Bool
is_kept key = key == "name" || key == "namespace" || key == "labels" || key == "annotations"

unfoldable pub keep_metadata {ℓ} : {V : Type ℓ} → Map V → Map V
keep_metadata [] = []
keep_metadata ((key, value) ∷ m) =
    let rest = keep_metadata m in if is_kept key then (key, value) ∷ rest else rest

module _ (K : Kube) where
  open K use {Obj, Value, Cluster, object, as_map, of_map, deep_equal, dry_run}

  sanitize_metadata : Map Value → Option (Map Value) → Map Value
  sanitize_metadata sanitized none = sanitized
  sanitize_metadata sanitized (some metadata) =
      insert sanitized "metadata" (of_map (keep_metadata metadata))

  metadata_of : Option Value → Option (Map Value)
  metadata_of none = none
  metadata_of (some value) = as_map value

  unfoldable pub sanitize_object : Obj → Map Value
  unfolding sanitize_metadata metadata_of
  sanitize_object obj =
      delete (sanitize_metadata (object obj) (metadata_of (lookup (object obj) "metadata")))
        "status"

  -- `DetectDrift` of two objects that are there; the dry run writes nothing.
  unfoldable pub detect_drift : Obj → Obj → Cluster → Result Bool
  detect_drift desired live cluster = elim (dry_run desired cluster) [
    | err e ↦ err (wrap "failed to perform dry-run apply" e)
    | ok applied ↦ ok (not (deep_equal (sanitize_object applied) (sanitize_object live)))
  ]

  -- `SimpleDriftCheck`.
  unfoldable pub simple_drift_check : Option Obj → Option Obj → Bool
  simple_drift_check none live = true
  simple_drift_check (some desired) none = true
  simple_drift_check (some desired) (some live) =
      not (deep_equal (sanitize_object desired) (sanitize_object live))
