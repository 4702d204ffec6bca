-- ===== src/Witnesses/Catalog.antt =====
-- A small catalog for the registry of pkg/assets.
use virt_platform_autopilot.Prelude.{◌≡◌, ◌↔◌, refl, Bool, true, false, none, some, List, [], ◌∷◌}
use virt_platform_autopilot.Prelude.Maps.{lookup, insert}
use virt_platform_autopilot.Kube.{ok}
use virt_platform_autopilot.Assets.Conditions.{
  always, opt_in, annotation, AssetCondition, Values, ConditionEvaluator,
}
use virt_platform_autopilot.Assets.Registry.{
  AssetMetadata, by_name, is_set, should_apply, crd_opt_in_states, resolve_policy_dependencies,
  check_each, check_dependency, check_policy_asset,
}
use virt_platform_autopilot.Assets.Activation.{
  Enabled, AnyOptedIn, should_apply-Enabled, crd_opt_in_states_exact,
}
use virt_platform_autopilot.Assets.Policies.{AllResolved, resolve_policy_dependencies-AllResolved}

-- Decoded objects whose values are flags.
abbrev pub flags : Values
flags = record {
  Value = Bool;
  nested_field = λ m path. none;
  is_nil = λ v. false;
  as_map = λ v. none;
  as_bool = λ v. some v;
}

abbrev pub evaluator : ConditionEvaluator flags
evaluator = record {
  hardware_context = [];
  feature_gates = [];
  kv_feature_gates = [];
  annotations = ("enable", "yes") ∷ [];
  images = [];
  hco_object = none;
  topology_context = none;
}

abbrev pub enabling : AssetCondition
enabling = record {
  type = annotation;
  detector = "";
  key = "enable";
  value = "yes";
  path = "";
  field = "";
}

abbrev pub policy_asset : AssetMetadata
policy_asset = record {
  name = "policy";
  gate_crd = "";
  required_crd = "";
  phase = 0;
  install = always;
  component = "MachineConfiguration";
  reconcile_order = 1;
  conditions = [];
  policy = none;
}

abbrev pub config_asset : AssetMetadata
config_asset = record {
  name = "config";
  gate_crd = "gates.example.com";
  required_crd = "configs.example.com";
  phase = 0;
  install = opt_in;
  component = "MachineConfig";
  reconcile_order = 2;
  conditions = enabling ∷ [];
  policy = some "policy";
}

abbrev catalog : List AssetMetadata
catalog = config_asset ∷ policy_asset ∷ []

should_apply-Enabled_example :
    (should_apply flags evaluator config_asset ≡ ok true)
    ↔ Enabled flags evaluator opt_in (enabling ∷ [])
should_apply-Enabled_example = should_apply-Enabled flags evaluator config_asset

crd_opt_in_states_exact_example :
    (is_set flags (lookup (crd_opt_in_states flags evaluator catalog) "gates.example.com") ≡ true)
    ↔ AnyOptedIn flags evaluator "gates.example.com" catalog
crd_opt_in_states_exact_example =
    crd_opt_in_states_exact flags evaluator catalog "gates.example.com" (λ e. cc)

resolves : resolve_policy_dependencies catalog ≡ none
unfolding resolve_policy_dependencies check_each check_dependency check_policy_asset lookup insert
resolves = refl

resolve_policy_dependencies-AllResolved_example : AllResolved (by_name catalog []) catalog
resolve_policy_dependencies-AllResolved_example =
    resolve_policy_dependencies-AllResolved catalog resolves
