-- ===== src/Assets/Conditions.antt =====
-- The conditions of pkg/assets/registry.go, and their evaluation. The accessors of a decoded object are
-- parameters.
use Prim.Native.String.{◌++◌}
use virt_platform_autopilot.Prelude.{
  String, ◌==◌, Bool, true, false, not, ◌&&◌, ◌||◌, Option, none, some, List, [], ◌∷◌,
  if◌then◌else◌,
}
use virt_platform_autopilot.Prelude.Maps.{Map, lookup}
use virt_platform_autopilot.Prelude.Text.{split}
use virt_platform_autopilot.Kube.{message, Result, ok, err}
use virt_platform_autopilot.Overrides.Validation.{contains}

-- `InstallMode`, a string in Go that nothing validates; the empty string is another one.
pub data InstallMode : Type 0 where
  always opt_in : InstallMode
  other_mode : String → InstallMode

-- `ConditionType`, a string in Go; any other string is unknown.
pub data ConditionType : Type 0 where
  hardware_detection feature_gate kubevirt_feature_gate annotation image : ConditionType
  hco_field_unconfigured topology : ConditionType
  unknown : String → ConditionType

pub record AssetCondition : Type 0 where
  pub type : ConditionType
  pub detector : String
  pub key : String
  pub value : String
  pub path : String
  pub field : String

abbrev prefixed : String → String → String
prefixed prefix s = if s == "" then "" else prefix ++ s

abbrev format_topology : AssetCondition → String
format_topology c =
    if c.field == ""
    then ""
    else if not (c.value == "") && not (c.value == "true")
    then "topology:" ++ c.field ++ "=" ++ c.value
    else "topology:" ++ c.field

-- `FormatCondition`, on each type of condition.
format_as : ConditionType → AssetCondition → String
format_as annotation c = if c.key == "" then "" else c.key ++ "=" ++ c.value
format_as feature_gate c = prefixed "featureGate:" c.value
format_as kubevirt_feature_gate c = prefixed "kubevirtFeatureGate:" c.value
format_as hardware_detection c = prefixed "hardware:" c.detector
format_as image c = prefixed "image:" c.key
format_as hco_field_unconfigured c = prefixed "hcoUnconfigured:" c.path
format_as topology c = format_topology c
format_as (unknown t) c = ""

unfoldable pub format_condition : AssetCondition → String
unfolding format_as
format_condition c = format_as c.type c

-- A decoded object: `NestedFieldNoCopy` with its not found, the nil test, and the type assertions.
pub record Values : Type 1 where
  pub Value : Type 0
  pub nested_field : Map Value → List String → Option Value
  pub is_nil : Value → Bool
  pub as_map : Value → Option (Map Value)
  pub as_bool : Value → Option Bool

module _ (V : Values) where
  open V use {Value, nested_field, is_nil, as_map, as_bool}

  -- `DefaultConditionEvaluator`; a nil map is none.
  pub record ConditionEvaluator : Type 0 where
    pub hardware_context : Map Bool
    pub feature_gates : Map Bool
    pub kv_feature_gates : List String
    pub annotations : Map String
    pub images : Map String
    pub hco_object : Option (Map Value)
    pub topology_context : Option (Map Value)

  abbrev is_on : Option Bool → Bool
  is_on none = false
  is_on (some b) = b

  abbrev annotation_fits : String → Option String → Bool
  annotation_fits wanted none = false
  annotation_fits wanted (some actual) = if wanted == "" then true else actual == wanted

  abbrev image_fits : Option String → Bool
  image_fits none = false
  image_fits (some image_name) = not (image_name == "")

  abbrev is_empty_map : Option (Map Value) → Bool
  is_empty_map none = false
  is_empty_map (some []) = true
  is_empty_map (some (entry ∷ m)) = false

  abbrev is_unconfigured : Option Value → Bool
  is_unconfigured none = true
  is_unconfigured (some v) = is_nil v || is_empty_map (as_map v)

  abbrev hco_unconfigured : String → Option (Map Value) → Bool
  hco_unconfigured path none = false
  hco_unconfigured path (some hco) = is_unconfigured (nested_field hco (split 46 path))

  abbrev topology_flag : AssetCondition → Option Bool → Result Bool
  topology_flag c none = err (message ("topology field is not a boolean: " ++ c.field))
  topology_flag c (some b) = if c.value == "false" then ok (not b) else ok b

  abbrev topology_entry : AssetCondition → Option Value → Result Bool
  topology_entry c none = ok false
  topology_entry c (some v) = topology_flag c (as_bool v)

  abbrev topology_fits : AssetCondition → Option (Map Value) → Result Bool
  topology_fits c none = ok false
  topology_fits c (some flags) = topology_entry c (lookup flags c.field)

  abbrev required : String → String → Result Bool → Result Bool
  required field text r = if field == "" then err (message text) else r

  evaluate_as : ConditionEvaluator → ConditionType → AssetCondition → Result Bool
  unfolding contains
  evaluate_as e hardware_detection c =
      required c.detector "hardware-detection condition requires detector field"
        (ok (is_on (lookup e.hardware_context c.detector)))
  evaluate_as e feature_gate c =
      required c.value "feature-gate condition requires value field"
        (ok (is_on (lookup e.feature_gates c.value)))
  evaluate_as e kubevirt_feature_gate c =
      required c.value "kubevirt-feature-gate condition requires value field"
        (ok (contains e.kv_feature_gates c.value))
  evaluate_as e annotation c =
      required c.key "annotation condition requires key field"
        (ok (annotation_fits c.value (lookup e.annotations c.key)))
  evaluate_as e image c =
      required c.key "image condition requires key field" (ok (image_fits (lookup e.images c.key)))
  evaluate_as e hco_field_unconfigured c =
      required c.path "hco-field-unconfigured condition requires path field"
        (ok (hco_unconfigured c.path e.hco_object))
  evaluate_as e topology c =
      required c.field "topology condition requires field" (topology_fits c e.topology_context)
  evaluate_as e (unknown t) c = err (message ("unknown condition type: " ++ t))

  -- `EvaluateCondition`.
  unfoldable pub evaluate_condition : ConditionEvaluator → AssetCondition → Result Bool
  unfolding evaluate_as
  evaluate_condition e c = evaluate_as e c.type c
