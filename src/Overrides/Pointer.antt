-- ===== src/Overrides/Pointer.antt =====
-- pkg/overrides/jsonpointer.go: the ignore-fields annotation, a list of JSON pointers whose values the
-- live object keeps.
use Prim.Native.String.{String, ◌++◌}
use text.Mathlib.Text.{◌==◌, starts_with, find?}
use virt_platform_autopilot.Prelude.{
  not, ◌&&◌, Option, none, some, List, [], ◌∷◌, map, is_some, if◌then◌else◌,
}
use virt_platform_autopilot.Prelude.Text.{trim_space, split, tail, replace_pair}
use virt_platform_autopilot.Prelude.Maps.{lookup}
use virt_platform_autopilot.Kube.{Kube, Error, message, wrap, Result, ok, err}
use virt_platform_autopilot.Overrides.Validation.{annotation_ignore_fields}

-- The loop of `parsePointers`: trimmed, and without the empty ones.
unfoldable pub keep_pointers : List String → List String
keep_pointers [] = []
keep_pointers (part ∷ parts) =
    let rest = keep_pointers parts in
    let trimmed = trim_space part in if trimmed == "" then rest else trimmed ∷ rest

unfoldable pub parse_pointers : String → List String
unfolding keep_pointers split
parse_pointers pointers = keep_pointers (split b',' pointers)

-- "~1" to "/" first, then "~0" to "~", as RFC 6901 asks.
unfoldable pub unescape : String → String
unfolding replace_pair
unescape segment = replace_pair b'~' b'0' "~" (replace_pair b'~' b'1' "/" segment)

-- The path of a pointer: the segments behind its leading "/".
unfoldable pub pointer_path : String → List String
unfolding split unescape
pointer_path pointer = map unescape (split b'/' (tail pointer))

-- The loop of `ValidatePointers`.
unfoldable pub check_pointers : List String → Option Error
check_pointers [] = none
check_pointers (pointer ∷ rest) =
    if not (starts_with pointer "/")
    then some (message ("invalid JSON pointer (must start with /): " ++ pointer))
    else if is_some (find? pointer "~")
        && not (is_some (find? pointer "~0"))
        && not (is_some (find? pointer "~1"))
    then some (message ("invalid escape sequence in JSON pointer: " ++ pointer))
    else check_pointers rest

unfoldable pub validate_pointers : String → Option Error
unfolding check_pointers parse_pointers
validate_pointers pointers =
    if pointers == "" then none else check_pointers (parse_pointers pointers)

module _ (K : Kube) where
  open K use {Obj, annotations, nested_field, set_nested_field, remove_nested_field}

  -- One pointer: the value of the live object, or its absence, moves into `dest`.
  unfoldable pub copy_field_by_pointer : Obj → Obj → String → Result Obj
  copy_field_by_pointer source dest pointer =
      if not (starts_with pointer "/")
      then err (message ("JSON pointer must start with /: " ++ pointer))
      else elim (nested_field source (pointer_path pointer)) [
        | err e ↦ err (wrap "failed to get field from source" e)
        | ok none ↦ ok (remove_nested_field dest (pointer_path pointer))
        | ok (some value) ↦ elim (set_nested_field dest value (pointer_path pointer)) [
          | err e ↦ err (wrap "failed to set field in dest" e)
          | ok dest' ↦ ok dest'
        ]
      ]

  -- The loop of `MaskIgnoredFields`.
  unfoldable pub copy_fields : Obj → Obj → List String → Result Obj
  copy_fields live result [] = ok result
  copy_fields live result (pointer ∷ pointers) = elim (copy_field_by_pointer live result pointer) [
    | err e ↦ err (wrap ("failed to mask field " ++ pointer) e)
    | ok result' ↦ copy_fields live result' pointers
  ]

  abbrev ignore_fields_of : Obj → String
  ignore_fields_of live = elim (lookup (annotations live) annotation_ignore_fields) [
    | none ↦ ""
    | some s ↦ s
  ]

  unfoldable pub mask_ignored_fields : Obj → Obj → Result Obj
  unfolding copy_fields
  mask_ignored_fields desired live =
      if ignore_fields_of live == ""
      then ok desired
      else copy_fields live desired (parse_pointers (ignore_fields_of live))
