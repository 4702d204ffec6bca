-- ===== src/Engine/Exclusion/Rules.antt =====
-- Which resources the rules of exclusion.go exclude.
use mathlib.Core.Path.{subst, sym}
use mathlib.Core.Bool.{false≢true}
use virt_platform_autopilot.Prelude.{
  String, eq_iff, ◌≡◌, ◌≢◌, ◌⊎◌, ◌↔◌, inl, inr, ◌∙◌, true, Bool-cases, none, List, [], ◌∷◌, arith,
}
use virt_platform_autopilot.Kube.{Kube, ExclusionRule, ok}
use virt_platform_autopilot.Engine.Exclusion.{
  check_rules, parse_disabled_resources, glob_matches, is_resource_excluded, excluded,
  keep_included, rule_matches, filter_excluded_assets,
}

module _ (K : Kube) where
  open K use {Obj, id_of, parse_rules}

  -- What a rule says of a resource: its kind exactly, its namespace pattern if it has one, and its
  -- name pattern.
  pub record Applies (kind namespace name : String) (rule : ExclusionRule) : Type 0 where
    pub same_kind : rule.kind ≡ kind
    pub namespace_fits : (rule.namespace ≡ "") ⊎ (glob_matches K rule.namespace namespace ≡ true)
    pub name_fits : glob_matches K rule.name name ≡ true

  -- Some rule of the list applies.
  pub data AnyApplies (kind namespace name : String) : List ExclusionRule → Type 0 where
    here :
        {rule : ExclusionRule} {rules : List ExclusionRule}
        → Applies kind namespace name rule
        → AnyApplies kind namespace name (rule ∷ rules)
    later :
        {rule : ExclusionRule} {rules : List ExclusionRule}
        → AnyApplies kind namespace name rules
        → AnyApplies kind namespace name (rule ∷ rules)

  rule_matches-Applies :
      (kind namespace name : String) (rule : ExclusionRule)
      → rule_matches K kind namespace name rule ≡ true
      → Applies kind namespace name rule
  rule_matches-Applies kind namespace name rule e =
      ground (arith, eq_iff rule.kind kind, eq_iff rule.namespace "")

  Applies-rule_matches :
      (kind namespace name : String) (rule : ExclusionRule)
      → Applies kind namespace name rule
      → rule_matches K kind namespace name rule ≡ true
  Applies-rule_matches kind namespace name rule h =
      ground (arith, eq_iff rule.kind kind, eq_iff rule.namespace "")

  excluded-AnyApplies :
      (kind namespace name : String) (rules : List ExclusionRule)
      → is_resource_excluded K kind namespace name rules ≡ true
      → AnyApplies kind namespace name rules
  unfolding is_resource_excluded
  excluded-AnyApplies kind namespace name [] e = absurd (false≢true e)
  excluded-AnyApplies kind namespace name (rule ∷ rules) e =
      elim (Bool-cases (rule_matches K kind namespace name rule)) [
        | inl m ↦ here (rule_matches-Applies kind namespace name rule m)
        | inr m ↦ later (excluded-AnyApplies kind namespace name rules (rw m at e))
      ]

  AnyApplies-excluded :
      (kind namespace name : String) {rules : List ExclusionRule}
      → AnyApplies kind namespace name rules
      → is_resource_excluded K kind namespace name rules ≡ true
  unfolding is_resource_excluded
  AnyApplies-excluded kind namespace name (here {rule} {rules} h) =
      rw (Applies-rule_matches kind namespace name rule h)
  AnyApplies-excluded kind namespace name (later {rule} {rules} h) =
      let ih = AnyApplies-excluded kind namespace name h in
      elim (Bool-cases (rule_matches K kind namespace name rule)) [ inl m ↦ rw m | inr m ↦ rw m ih ]

  -- A resource is excluded exactly when some rule has its kind, a namespace that is empty or
  -- matches, and a name that matches.
  pub is_resource_excluded_exact :
      (kind namespace name : String) (rules : List ExclusionRule)
      → (is_resource_excluded K kind namespace name rules ≡ true)
        ↔ AnyApplies kind namespace name rules
  is_resource_excluded_exact kind namespace name rules =
      (excluded-AnyApplies kind namespace name rules, AnyApplies-excluded kind namespace name)

  -- Every rule names a kind and a resource.
  abbrev pub AllNamed : List ExclusionRule → Type 0
  AllNamed [] = Unit
  AllNamed (rule ∷ rules) = (rule.kind ≢ "") × (rule.name ≢ "") × AllNamed rules

  check_rules-AllNamed : (rules : List ExclusionRule) → check_rules rules ≡ none → AllNamed rules
  unfolding check_rules
  check_rules-AllNamed [] e = tt
  check_rules-AllNamed (rule ∷ rules) e = (
    (λ k. ground (arith, k, eq_iff rule.kind "")),
    (λ n. ground (arith, n, eq_iff rule.name "")),
    check_rules-AllNamed rules (ground arith),
  )

  parse_cases :
      (annotation : String) (rules : List ExclusionRule)
      → parse_disabled_resources K annotation ≡ ok rules
      → (rules ≡ []) ⊎ (check_rules rules ≡ none)
  unfolding parse_disabled_resources
  parse_cases annotation rules e = ground arith

  -- Every rule of a parsed annotation has a kind and a name that are not empty.
  pub parse_disabled_resources-AllNamed :
      (annotation : String) (rules : List ExclusionRule)
      → parse_disabled_resources K annotation ≡ ok rules
      → AllNamed rules
  parse_disabled_resources-AllNamed annotation rules e = elim (parse_cases annotation rules e) [
    | inl p ↦ subst AllNamed (sym p) tt
    | inr p ↦ check_rules-AllNamed rules p
  ]

  -- The assets to which no rule applies, in their order.
  pub data Included (rules : List ExclusionRule) : List Obj → List Obj → Type 0 where
    nil : Included rules [] []
    keep :
        {asset : Obj} {assets kept : List Obj}
        → ¬ AnyApplies (id_of asset).kind (id_of asset).namespace (id_of asset).name rules
        → Included rules assets kept
        → Included rules (asset ∷ assets) (asset ∷ kept)
    drop :
        {asset : Obj} {assets kept : List Obj}
        → AnyApplies (id_of asset).kind (id_of asset).namespace (id_of asset).name rules
        → Included rules assets kept
        → Included rules (asset ∷ assets) kept

  keep_included-Included :
      (rules : List ExclusionRule) (assets : List Obj)
      → Included rules assets (keep_included K rules assets)
  unfolding keep_included
  keep_included-Included rules [] = nil
  keep_included-Included rules (asset ∷ assets) =
      let ih = keep_included-Included rules assets in
      elim (Bool-cases (excluded K rules asset)) [
        | inl e ↦ rw e (drop (excluded-AnyApplies _ _ _ rules e) ih)
        | inr e ↦ rw e (keep (λ h. false≢true (sym e ∙ AnyApplies-excluded _ _ _ h)) ih)
      ]

  no_rules : (assets : List Obj) → Included [] assets assets
  no_rules [] = nil
  no_rules (asset ∷ assets) = keep (λ h. elim h [ ]) (no_rules assets)

  -- The filter keeps the assets to which no rule applies, in their order, and drops the others.
  pub filter_excluded_assets-Included :
      (assets : List Obj) (rules : List ExclusionRule)
      → Included rules assets (filter_excluded_assets K assets rules)
  unfolding filter_excluded_assets
  filter_excluded_assets-Included assets [] = no_rules assets
  filter_excluded_assets-Included assets (rule ∷ rules) =
      keep_included-Included (rule ∷ rules) assets
