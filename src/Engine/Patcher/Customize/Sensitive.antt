-- ===== src/Engine/Patcher/Customize/Sensitive.antt =====
-- A user's patch on an object of a sensitive kind, in step 3 of `ReconcileAsset` in
-- pkg/engine/patcher.go.
use virt_platform_autopilot.Prelude.{
  String, ◌==◌, eq_iff, ◌≡◌, ◌≢◌, refl, ap, ◌∙◌, true, Bool-cases, inl, inr, Option, none, some,
}
use virt_platform_autopilot.Prelude.Maps.{lookup, insert, delete, lookup-insert_self}
use virt_platform_autopilot.Kube.{Kube, Error, ObjectId}
use virt_platform_autopilot.Overrides.Validation.{contains, sensitive_kinds, patch_annotation}
use virt_platform_autopilot.Overrides.Annotations.{validate_annotations}
use virt_platform_autopilot.Overrides.Security.{sensitive_patch_refused}
use virt_platform_autopilot.Engine.Flow.{State, next, ◌>>=◌}
use virt_platform_autopilot.Engine.Patcher.Prepare.{Context}
use virt_platform_autopilot.Engine.Patcher.Customize.{
  apply_user_patch, patch_with, validate_and_patch,
}

module _ (K : Kube) (ctx : Context K) where
  open K use {
    Obj, id_of, annotations, set_annotations, id_of-set_annotations, annotations-set_annotations,
  }

  abbrev marked : Obj → String → Obj
  marked desired patch =
      set_annotations desired (insert (annotations desired) patch_annotation patch)

  -- The copy without the annotation.
  abbrev pub cleared : Obj → String → Obj
  cleared desired patch =
      set_annotations (marked desired patch)
        (delete (annotations (marked desired patch)) patch_annotation)

  marked_refused :
      (desired : Obj) (patch : String)
      → contains sensitive_kinds (id_of desired).kind ≡ true
      → validate_annotations K (marked desired patch) ≢ none
  marked_refused desired patch k =
      sensitive_patch_refused K (marked desired patch) patch
        (ap (λ (i : ObjectId). contains sensitive_kinds i.kind) (id_of-set_annotations desired _)
          ∙ k)
        (ap (λ m. lookup m patch_annotation) (annotations-set_annotations desired _)
          ∙ lookup-insert_self (annotations desired) patch_annotation patch)

  dropped :
      (desired : Obj) (patch : String) (o : Option Error) (s : State K)
      → o ≢ none
      → (validate_and_patch K ctx (marked desired patch) o s).0 ≡ next (cleared desired patch)
  unfolding validate_and_patch ◌>>=◌
  dropped desired patch none s h = absurd (h refl)
  dropped desired patch (some e) s h = elim (Bool-cases ctx.has_recorder) [
    | inl b ↦ rw b refl
    | inr b ↦ rw b refl
  ]

  -- For a desired object of a sensitive kind and a live object with a patch annotation that is
  -- not empty, the patch step goes on with the desired object without the patch: only its patch
  -- annotation is set and deleted again.
  pub apply_user_patch_sensitive :
      (desired live : Obj) (patch : String) (s : State K)
      → contains sensitive_kinds (id_of desired).kind ≡ true
      → lookup (annotations live) patch_annotation ≡ some patch
      → patch ≢ ""
      → (apply_user_patch K ctx desired (some live) s).0 ≡ next (cleared desired patch)
  unfolding apply_user_patch patch_with ◌>>=◌
  apply_user_patch_sensitive desired live patch s k l n = elim (Bool-cases (patch == "")) [
    | inl e ↦ absurd (n ((eq_iff patch "").0 e))
    | inr e ↦ rw (l, e) (dropped desired patch _ _ (marked_refused desired patch k))
  ]
