-- ===== src/Witnesses/Checks.antt =====
-- Runs of the checks of pkg/overrides and of the exclusion rules of pkg/engine/exclusion.go.
use virt_platform_autopilot.Prelude.{◌≡◌, ◌≢◌, ◌↔◌, inr, refl, true, none, List, [], ◌∷◌}
use virt_platform_autopilot.Prelude.Maps.{lookup}
use virt_platform_autopilot.Prelude.Text.{trim_space}
use virt_platform_autopilot.Kube.{ok, PatchOperation, ExclusionRule}
use virt_platform_autopilot.Overrides.Validation.{
  contains, validate_operations, validate_patch_paths,
}
use virt_platform_autopilot.Overrides.Annotations.{validate_annotations}
use virt_platform_autopilot.Overrides.Pointer.{unescape}
use virt_platform_autopilot.Overrides.Escapes.{escape, unescape-escape}
use virt_platform_autopilot.Overrides.Security.{
  AllSafe, validate_operations-AllSafe, sensitive_patch_refused, ancestor_patch_passes,
}
use virt_platform_autopilot.Engine.Exclusion.{
  check_rules, is_resource_excluded, parse_disabled_resources, filter_excluded_assets,
}
use virt_platform_autopilot.Engine.Exclusion.Rules.{
  AnyApplies, AllNamed, Included, is_resource_excluded_exact, parse_disabled_resources-AllNamed,
  filter_excluded_assets-Included,
}
use virt_platform_autopilot.Witnesses.{small, widget, patched_role}

unescape-escape_example : unescape (escape "a/b~c") ≡ "a/b~c"
unescape-escape_example = unescape-escape "a/b~c"

abbrev change : PatchOperation
change = record { op = "replace"; path = "/spec/replicas"; from = "" }

validate_operations-AllSafe_example :
    (validate_operations (change ∷ []) ≡ none) ↔ AllSafe (change ∷ [])
validate_operations-AllSafe_example = validate_operations-AllSafe (change ∷ [])

sensitive_patch_refused_example : validate_annotations small patched_role ≢ none
unfolding lookup
sensitive_patch_refused_example =
    sensitive_patch_refused small patched_role "[]" (unfold contains in refl) refl

ancestor_patch_passes_example : validate_patch_paths small "/metadata" ≡ none
ancestor_patch_passes_example =
    ancestor_patch_passes small "/metadata"
      (record { op = "remove"; path = "/metadata"; from = "" }) refl (inr refl) refl

is_resource_excluded_exact_example :
    (is_resource_excluded small "Widget" "" "w"
        (record { kind = "Widget"; namespace = ""; name = "w" } ∷ [])
      ≡ true)
    ↔ AnyApplies small "Widget" "" "w" (record { kind = "Widget"; namespace = ""; name = "w" } ∷ [])
is_resource_excluded_exact_example =
    is_resource_excluded_exact small "Widget" "" "w"
      (record { kind = "Widget"; namespace = ""; name = "w" } ∷ [])

abbrev pub widgets : List ExclusionRule
widgets = record { kind = "Widget"; namespace = ""; name = "w" } ∷ []

pub parses : parse_disabled_resources small "Widget" ≡ ok widgets
unfolding parse_disabled_resources trim_space check_rules
parses = refl

parse_disabled_resources-AllNamed_example : AllNamed small widgets
parse_disabled_resources-AllNamed_example =
    parse_disabled_resources-AllNamed small "Widget" widgets parses

filter_excluded_assets-Included_example :
    Included small widgets
      (widget ∷ patched_role ∷ [])
      (filter_excluded_assets small (widget ∷ patched_role ∷ []) widgets)
filter_excluded_assets-Included_example =
    filter_excluded_assets-Included small (widget ∷ patched_role ∷ []) widgets
