-- ===== src/Overrides/Annotations.antt =====
-- `IsAutopilotEnabled` and `ValidateAnnotations` of pkg/overrides/validation.go.
use Prim.Native.String.{◌++◌}
use virt_platform_autopilot.Prelude.{
  String, ◌==◌, Bool, true, not, ◌&&◌, Option, none, some, if◌then◌else◌,
}
use virt_platform_autopilot.Prelude.Text.{trim_space}
use virt_platform_autopilot.Prelude.Maps.{lookup}
use virt_platform_autopilot.Kube.{Kube, Error, message, wrap}
use virt_platform_autopilot.Overrides.Validation.{
  patch_annotation, annotation_ignore_fields, annotation_mode, mode_unmanaged,
  annotation_autopilot_enabled, validate_patch,
}
use virt_platform_autopilot.Overrides.Pointer.{validate_pointers}

abbrev value_or_empty : Option String → String
value_or_empty none = ""
value_or_empty (some s) = s

unfoldable pub validate_mode : Option String → Option Error
validate_mode none = none
validate_mode (some mode) =
    if not (mode == mode_unmanaged) && not (mode == "")
    then some (message ("invalid mode annotation: " ++ mode))
    else none

unfoldable pub validate_ignore_fields : Option String → Option Error
unfolding validate_pointers
validate_ignore_fields none = none
validate_ignore_fields (some fields) = elim (validate_pointers fields) [
  | some e ↦ some (wrap "invalid ignore-fields annotation" e)
  | none ↦ none
]

module _ (K : Kube) where
  open K use {Obj, annotations}

  -- `IsAutopilotEnabled`; a missing HCO leaves the autopilot on.
  unfoldable pub is_autopilot_enabled : Option Obj → Bool
  is_autopilot_enabled none = true
  is_autopilot_enabled (some hco) = not (
      trim_space (value_or_empty (lookup (annotations hco) annotation_autopilot_enabled))
      == "false")

  -- The patch annotation is checked first, then ignore-fields, then the mode.
  validate_patch_if_set : Obj → Option String → Option Error
  validate_patch_if_set obj none = none
  validate_patch_if_set obj (some patch_str) = validate_patch K obj patch_str

  unfoldable pub validate_annotations : Obj → Option Error
  unfolding validate_patch_if_set
  validate_annotations obj =
      elim (validate_patch_if_set obj (lookup (annotations obj) patch_annotation)) [
        | some e ↦ some e
        | none ↦ elim (validate_ignore_fields (lookup (annotations obj) annotation_ignore_fields)) [
          | some e ↦ some e
          | none ↦ validate_mode (lookup (annotations obj) annotation_mode)
        ]
      ]
