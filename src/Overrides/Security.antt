-- ===== src/Overrides/Security.antt =====
-- What the checks of pkg/overrides/validation.go keep a user's patch from doing.
use Prim.Native.String.{◌++◌}
use text.Mathlib.Text.{starts_with}
use virt_platform_autopilot.Prelude.{
  String, ◌==◌, eq_iff, ◌≡◌, refl, true, none, some, List, [], ◌∷◌, ◌≢◌, arith, inl, inr, ◌⊎◌, ◌↔◌,
}
use virt_platform_autopilot.Prelude.Maps.{lookup}
use virt_platform_autopilot.Overrides.Annotations.{validate_annotations}
use virt_platform_autopilot.Kube.{Kube, ok, PatchOperation}
use virt_platform_autopilot.Overrides.Validation.{
  contains, sensitive_kinds, forbidden_patch_paths, forbidden_by, is_forbidden_patch_path,
  validate_operation, validate_operations, validate_patch_paths, validate_patch_security,
  patch_annotation, validate_patch,
}

-- The path is the protected one, or lies below it.
abbrev pub Hits : String → String → Type 0
Hits path prefix = (path ≡ prefix) ⊎ (starts_with path (prefix ++ "/") ≡ true)

abbrev pub Clear : List String → String → Type 0
Clear [] path = Unit
Clear (prefix ∷ rest) path = (¬ Hits path prefix) × Clear rest path

abbrev pub IsSafe : PatchOperation → Type 0
IsSafe op =
    Clear forbidden_patch_paths op.path × ((op.from ≡ "") ⊎ Clear forbidden_patch_paths op.from)

abbrev pub AllSafe : List PatchOperation → Type 0
AllSafe [] = Unit
AllSafe (op ∷ ops) = IsSafe op × AllSafe ops

forbidden_by-Clear :
    (ps : List String) (path : String) → forbidden_by ps path ≡ none → Clear ps path
unfolding forbidden_by
forbidden_by-Clear [] path e = tt
forbidden_by-Clear (p ∷ ps) path e =
    ((λ h. ground (arith, h, eq_iff path p)), forbidden_by-Clear ps path (ground arith))

Clear-forbidden_by :
    (ps : List String) (path : String) → Clear ps path → forbidden_by ps path ≡ none
unfolding forbidden_by
Clear-forbidden_by [] path h = refl
Clear-forbidden_by (p ∷ ps) path h =
    ground (arith, h.0, eq_iff path p, Clear-forbidden_by ps path h.1)

-- The two outcomes of `isForbiddenPatchPath` that let an operation pass.
abbrev Passes : PatchOperation → Type 0
Passes op =
    (is_forbidden_patch_path op.path ≡ none)
    × (((op.from == "") ≡ true) ⊎ (is_forbidden_patch_path op.from ≡ none))

validate_operation-Passes : (op : PatchOperation) → (validate_operation op ≡ none) ↔ Passes op
unfolding validate_operation
validate_operation-Passes op = ground arith

Passes-IsSafe : (op : PatchOperation) → Passes op → IsSafe op
unfolding is_forbidden_patch_path
Passes-IsSafe op (p, inl q) =
    (forbidden_by-Clear forbidden_patch_paths op.path p, inl ((eq_iff op.from "").0 q))
Passes-IsSafe op (p, inr q) = (
  forbidden_by-Clear forbidden_patch_paths op.path p,
  inr (forbidden_by-Clear forbidden_patch_paths op.from q),
)

IsSafe-Passes : (op : PatchOperation) → IsSafe op → Passes op
unfolding is_forbidden_patch_path
IsSafe-Passes op (p, inl q) =
    (Clear-forbidden_by forbidden_patch_paths op.path p, inl ((eq_iff op.from "").1 q))
IsSafe-Passes op (p, inr q) = (
  Clear-forbidden_by forbidden_patch_paths op.path p,
  inr (Clear-forbidden_by forbidden_patch_paths op.from q),
)

validate_operations-cons :
    (op : PatchOperation) (ops : List PatchOperation)
    → (validate_operations (op ∷ ops) ≡ none)
      ↔ ((validate_operation op ≡ none) × (validate_operations ops ≡ none))
unfolding validate_operations
validate_operations-cons op ops = ground arith

-- The path checks of a patch pass exactly when no operation's path, and no operation's from where
-- it is set, is a protected path or lies below one.
pub validate_operations-AllSafe :
    (ops : List PatchOperation) → (validate_operations ops ≡ none) ↔ AllSafe ops
unfolding validate_operations
validate_operations-AllSafe [] = ((λ e. tt), (λ h. refl))
validate_operations-AllSafe (op ∷ ops) = (
  (λ h.
      let (first, rest) = (validate_operations-cons op ops).0 h in
      (
        Passes-IsSafe op ((validate_operation-Passes op).0 first),
        (validate_operations-AllSafe ops).0 rest,
      )),
  (λ h. (validate_operations-cons op ops).1 (
    (validate_operation-Passes op).1 (IsSafe-Passes op h.0),
    (validate_operations-AllSafe ops).1 h.1,
  )),
)

module _ (K : Kube) where
  open K use {Obj, id_of, annotations, patch_operations}

  -- ValidateAnnotations fails on an object of a sensitive kind that carries a patch annotation.
  pub sensitive_patch_refused :
      (obj : Obj) (s : String)
      → contains sensitive_kinds (id_of obj).kind ≡ true
      → lookup (annotations obj) patch_annotation ≡ some s
      → validate_annotations K obj ≢ none
  unfolding validate_annotations validate_patch validate_patch_security
  sensitive_patch_refused obj s k p e = ground (arith, k, p, e)

  -- A patch of one operation without from, on the whole document or on the whole metadata, passes
  -- ValidatePatchPaths.
  pub ancestor_patch_passes :
      (s : String) (op : PatchOperation)
      → patch_operations s ≡ ok (op ∷ [])
      → (op.path ≡ "") ⊎ (op.path ≡ "/metadata")
      → op.from ≡ ""
      → validate_patch_paths K s ≡ none
  unfolding validate_patch_paths validate_operations is_forbidden_patch_path
  ancestor_patch_passes s op p h f =
      ground (arith, p, (validate_operation-Passes op).1 (path_passes h, inl (rw f refl)))
    where
      path_passes :
          (op.path ≡ "") ⊎ (op.path ≡ "/metadata") → is_forbidden_patch_path op.path ≡ none
      path_passes (inl e) = rw e refl
      path_passes (inr e) = rw e refl
