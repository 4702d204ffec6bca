-- ===== src/Overrides/Validation.antt =====
-- pkg/overrides/validation.go and jsonpatch.go: the override annotations, and which patches are
-- refused.
use Prim.Native.String.{◌++◌}
use text.Mathlib.Text.{starts_with}
use virt_platform_autopilot.Prelude.{
  String, ◌==◌, Bool, false, ◌&&◌, ◌||◌, Option, none, some, List, [], ◌∷◌, is_some, if◌then◌else◌,
}
use virt_platform_autopilot.Prelude.Maps.{lookup}
use virt_platform_autopilot.Kube.{Kube, Error, message, wrap, Result, ok, err, PatchOperation}

abbrev pub patch_annotation : String
patch_annotation = "platform.kubevirt.io/patch"

abbrev pub annotation_ignore_fields : String
annotation_ignore_fields = "platform.kubevirt.io/ignore-fields"

abbrev pub annotation_autopilot_enabled : String
annotation_autopilot_enabled = "platform.kubevirt.io/autopilot"

abbrev pub annotation_mode : String
annotation_mode = "platform.kubevirt.io/mode"

abbrev pub mode_unmanaged : String
mode_unmanaged = "unmanaged"

abbrev pub annotation_reconcile_paused : String
annotation_reconcile_paused = "platform.kubevirt.io/reconcile-paused"

unfoldable pub contains : List String → String → Bool
contains [] s = false
contains (t ∷ ts) s = t == s || contains ts s

abbrev pub sensitive_kinds : List String
sensitive_kinds =
    "MachineConfig" ∷ "MachineConfiguration" ∷ "ClusterRole" ∷ "ClusterRoleBinding" ∷ "Role"
    ∷ "RoleBinding" ∷ "ServiceAccount" ∷ "PodSecurityPolicy" ∷ "SecurityContextConstraints"
    ∷ "ValidatingWebhookConfiguration" ∷ "MutatingWebhookConfiguration" ∷ []

abbrev pub forbidden_patch_paths : List String
forbidden_patch_paths =
    "/metadata/name" ∷ "/metadata/namespace" ∷ "/metadata/managedFields" ∷ "/apiVersion" ∷ "/kind"
    ∷ "/status" ∷ []

-- The loop of `isForbiddenPatchPath`: the first protected prefix that the path hits.
unfoldable pub forbidden_by : List String → String → Option String
forbidden_by [] path = none
forbidden_by (prefix ∷ rest) path =
    if path == prefix || starts_with path (prefix ++ "/")
    then some prefix
    else forbidden_by rest path

unfoldable pub is_forbidden_patch_path : String → Option String
unfolding forbidden_by
is_forbidden_patch_path path = forbidden_by forbidden_patch_paths path

-- The two tests of `ValidatePatchPaths` on one operation.
unfoldable pub validate_operation : PatchOperation → Option Error
validate_operation op = elim (is_forbidden_patch_path op.path) [
  | some matched ↦ some (message ("patch path is forbidden: targets protected prefix " ++ matched))
  | none ↦ if op.from == "" then none else elim (is_forbidden_patch_path op.from) [
    | some matched ↦
        some (message ("patch from is forbidden: targets protected prefix " ++ matched))
    | none ↦ none
  ]
]

unfoldable pub validate_operations : List PatchOperation → Option Error
validate_operations [] = none
validate_operations (op ∷ ops) = elim (validate_operation op) [
  | some e ↦ some e
  | none ↦ validate_operations ops
]

module _ (K : Kube) where
  open K use {Obj, id_of, annotations, decode_patch, apply_patch, patch_operations}

  unfoldable pub validate_json_patch : String → Option Error
  validate_json_patch patch_str = if patch_str == "" then none else elim (decode_patch patch_str) [
    | some e ↦ some (wrap "invalid JSON Patch" e)
    | none ↦ none
  ]

  unfoldable pub validate_patch_paths : String → Option Error
  validate_patch_paths patch_str =
      if patch_str == "" then none else elim (patch_operations patch_str) [
        | err e ↦ some (wrap "failed to parse patch operations" e)
        | ok ops ↦ validate_operations ops
      ]

  unfoldable pub validate_patch_security : Obj → Option Error
  validate_patch_security obj =
      if contains sensitive_kinds (id_of obj).kind
        && is_some (lookup (annotations obj) patch_annotation)
      then some (
          message ("JSON patches are not allowed on sensitive resource kind: " ++ (id_of obj).kind))
      else none

  abbrev is_value : String → Option String → Bool
  is_value v none = false
  is_value v (some w) = w == v

  unfoldable pub is_unmanaged : Obj → Bool
  is_unmanaged obj = is_value mode_unmanaged (lookup (annotations obj) annotation_mode)

  unfoldable pub is_paused : Obj → Bool
  is_paused obj = is_value "true" (lookup (annotations obj) annotation_reconcile_paused)

  -- The patch annotation's part of `ValidateAnnotations`.
  unfoldable pub validate_patch : Obj → String → Option Error
  validate_patch obj patch_str = elim (validate_json_patch patch_str) [
    | some e ↦ some (wrap "invalid patch annotation" e)
    | none ↦ elim (validate_patch_security obj) [
      | some e ↦ some e
      | none ↦ elim (validate_patch_paths patch_str) [
        | some e ↦ some (wrap "patch security violation" e)
        | none ↦ none
      ]
    ]
  ]

  -- The annotation of the object, or Go's zero value.
  abbrev pub patch_of : Obj → String
  patch_of obj = elim (lookup (annotations obj) patch_annotation) [ none ↦ "" | some s ↦ s ]

  -- `ApplyJSONPatch`: `none` stands for (false, nil), `some` for the patched object.
  unfoldable pub apply_json_patch : Obj → Result (Option Obj)
  apply_json_patch obj =
      let patch_str = patch_of obj in
      if patch_str == "" then ok none else elim (decode_patch patch_str) [
        | some e ↦ err (wrap "invalid JSON Patch in annotation" e)
        | none ↦ elim (apply_patch obj patch_str) [
          | err e ↦ err (wrap "failed to apply JSON Patch" e)
          | ok patched ↦ ok (some patched)
        ]
      ]
