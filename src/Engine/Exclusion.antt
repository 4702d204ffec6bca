-- ===== src/Engine/Exclusion.antt =====
-- pkg/engine/exclusion.go: root exclusion by the disabled-resources annotation. The YAML parser and
-- `filepath.Match` are the interface's.
pub mod Rules
use virt_platform_autopilot.Prelude.{
  ℕ, ◌+◌, String, ◌==◌, Bool, true, false, not, ◌&&◌, ◌||◌, Option, none, some, List, [], ◌∷◌,
  if◌then◌else◌,
}
use virt_platform_autopilot.Prelude.Text.{trim_space}
use virt_platform_autopilot.Kube.{
  Kube, ObjectId, ExclusionRule, Error, message, wrap, Result, ok, err,
}

abbrev pub disabled_resources_annotation : String
disabled_resources_annotation = "platform.kubevirt.io/disabled-resources"

-- The validation loop of `ParseDisabledResources`.
unfoldable pub check_rules : List ExclusionRule → Option Error
check_rules [] = none
check_rules (rule ∷ rules) =
    if rule.kind == ""
    then some (message "kind is required")
    else if rule.name == ""
    then some (message "name is required")
    else check_rules rules

module _ (K : Kube) where
  open K use {Obj, id_of, parse_rules, glob}

  unfoldable pub parse_disabled_resources : String → Result (List ExclusionRule)
  parse_disabled_resources annotation =
      let trimmed = trim_space annotation in
      if trimmed == "" then ok [] else elim (parse_rules trimmed) [
        | err e ↦ err (wrap "failed to parse disabled-resources annotation" e)
        | ok rules ↦ elim (check_rules rules) [ some e ↦ err e | none ↦ ok rules ]
      ]

  -- A malformed pattern matches nothing, for the namespace as for the name.
  abbrev pub glob_matches : String → String → Bool
  glob_matches pattern_text name = elim (glob pattern_text name) [ none ↦ false | some b ↦ b ]

  abbrev rule_matches : String → String → String → ExclusionRule → Bool
  rule_matches kind namespace name rule =
      if not (rule.kind == kind)
      then false
      else if not (rule.namespace == "") && not (glob_matches rule.namespace namespace)
      then false
      else glob_matches rule.name name

  unfoldable pub is_resource_excluded : String → String → String → List ExclusionRule → Bool
  is_resource_excluded kind namespace name [] = false
  is_resource_excluded kind namespace name (rule ∷ rules) =
      let rest = is_resource_excluded kind namespace name rules in
      if rule_matches kind namespace name rule then true else rest

  abbrev pub excluded : List ExclusionRule → Obj → Bool
  excluded rules asset =
      is_resource_excluded (id_of asset).kind (id_of asset).namespace (id_of asset).name rules

  keep_included : List ExclusionRule → List Obj → List Obj
  keep_included rules [] = []
  keep_included rules (asset ∷ assets) =
      let rest = keep_included rules assets in if excluded rules asset then rest else asset ∷ rest

  unfoldable pub filter_excluded_assets : List Obj → List ExclusionRule → List Obj
  unfolding keep_included
  filter_excluded_assets assets [] = assets
  filter_excluded_assets assets (rule ∷ rules) = keep_included (rule ∷ rules) assets
