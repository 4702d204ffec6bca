-- ===== src/Kube.antt =====
-- What the controller takes from code that is not its own: the accessors of unstructured objects, the
-- client of the API server, JSON Patch, YAML and templates. The cluster is an abstract state, and
-- what an API call does to it is the API server's business.
pub mod Results
use virt_platform_autopilot.Prelude.{ℕ, String, Bool, true, false, Option, List, ◌≡◌}
use Prim.Native.String.{◌++◌}
use virt_platform_autopilot.Prelude.Maps.{Map}
use virt_platform_autopilot.Throttling.TokenBucket.{ThrottledError}

-- The errors of the API server, as apimachinery's `errors` classifies them, with their message.
pub data ApiError : Type 0 where
  not_found conflict no_match other : String → ApiError

-- A Go error: the API server's, a message, one wrapped by `%w`, or the limiter's.
pub data Error : Type 0 where
  api : ApiError → Error
  message : String → Error
  wrap : String → Error → Error
  throttled : ThrottledError → Error

pub data Result {ℓ} (A : Type ℓ) : Type ℓ where
  ok : A → Result A
  err : Error → Result A

-- `errors.IsNotFound`, which looks through wrapping.
abbrev pub is_not_found : Error → Bool
is_not_found (api (not_found m)) = true
is_not_found (wrap m e) = is_not_found e
is_not_found _ = false

-- `meta.IsNoMatchError`.
abbrev pub is_no_match : Error → Bool
is_no_match (api (no_match m)) = true
is_no_match (wrap m e) = is_no_match e
is_no_match _ = false

-- `errors.IsConflict`.
abbrev pub is_conflict : Error → Bool
is_conflict (api (conflict m)) = true
is_conflict (wrap m e) = is_conflict e
is_conflict _ = false

-- `err.Error()`.
unfoldable pub error_text : Error → String
error_text (api (not_found m)) = m
error_text (api (conflict m)) = m
error_text (api (no_match m)) = m
error_text (api (other m)) = m
error_text (message m) = m
error_text (wrap m e) = m ++ ": " ++ error_text e
error_text (throttled t) = "throttled: too many updates for " ++ t.key

-- Group, version, kind, namespace and name: what identifies an object to the API server.
pub record ObjectId : Type 0 where
  pub group : String
  pub version : String
  pub kind : String
  pub namespace : String
  pub name : String

-- One operation of a user's patch, as far as validation.go reads it.
pub record PatchOperation : Type 0 where
  pub op : String
  pub path : String
  pub from : String

pub record ExclusionRule : Type 0 where
  pub kind : String
  pub namespace : String
  pub name : String

-- The staging ConfigMap as the API server returns it.
pub record ConfigMap : Type 0 where
  pub entries : Map String
  pub has_owner : Bool

-- A staged MachineConfig update, as it stands in the ConfigMap.
pub record Stage : Type 0 where
  pub staged_at : ℕ
  pub desired_hash : String
  pub matching_pools : List String

-- `NodeDisruptionPolicyDependency`: the name of the policy asset, and that asset, once resolved.
pub record Dependency : Type 0 where
  pub asset : String
  pub policy_asset : Option String

-- The asset of the catalog, as far as the patcher reads it.
pub record Asset : Type 0 where
  pub name : String
  pub policy : Option Dependency

pub record Kube : Type 1 where
  -- `unstructured.Unstructured`
  pub Obj : Type 0
  pub id_of : Obj → ObjectId
  pub annotations : Obj → Map String
  pub set_annotations : Obj → Map String → Obj
  pub labels : Obj → Map String
  pub set_labels : Obj → Map String → Obj
  pub id_of-set_annotations : (o : Obj) (m : Map String) → id_of (set_annotations o m) ≡ id_of o
  pub annotations-set_annotations :
      (o : Obj) (m : Map String) → annotations (set_annotations o m) ≡ m
  pub labels-set_annotations : (o : Obj) (m : Map String) → labels (set_annotations o m) ≡ labels o
  pub id_of-set_labels : (o : Obj) (m : Map String) → id_of (set_labels o m) ≡ id_of o
  pub labels-set_labels : (o : Obj) (m : Map String) → labels (set_labels o m) ≡ m
  pub annotations-set_labels :
      (o : Obj) (m : Map String) → annotations (set_labels o m) ≡ annotations o
  -- the content, `obj.Object`, with `v.(map[string]any)` and `equality.Semantic.DeepEqual`
  pub Value : Type 0
  pub object : Obj → Map Value
  pub as_map : Value → Option (Map Value)
  pub of_map : Map Value → Value
  pub deep_equal : Map Value → Map Value → Bool
  -- `unstructured.NestedFieldCopy`, `SetNestedField` and `RemoveNestedField`
  pub nested_field : Obj → List String → Result (Option Value)
  pub set_nested_field : Obj → Value → List String → Result Obj
  pub remove_nested_field : Obj → List String → Obj
  pub uid : Obj → String
  pub as_string : Value → Option String
  pub nested_map : Map Value → List String → Result (Option (Map Value))
  pub nested_string_map : Map Value → List String → Result (Option (Map String))
  pub nested_slice : Map Value → List String → Result (Option (List Value))
  pub nested_string : Map Value → List String → Result (Option String)
  pub nested_bool : Map Value → List String → Result (Option Bool)
  pub nested_string_slice : Map Value → List String → Result (Option (List String))
  -- `NestedInt64` of a generation, and `GetGeneration`
  pub nested_generation : Map Value → List String → Result (Option ℕ)
  pub generation : Obj → ℕ
  -- `reflect.DeepEqual`
  pub same_map : Map Value → Map Value → Bool
  pub same_list : List Value → List Value → Bool
  pub of_list : List Value → Value
  -- an object of this identity with further content
  pub new_object : ObjectId → Map Value → Obj
  -- `metav1.LabelSelectorAsSelector` and `Selector.Matches`
  pub Requirement : Type 0
  pub as_requirement : Value → Result Requirement
  pub Selector : Type 0
  pub label_selector : Map String → List Requirement → Result Selector
  pub selects : Selector → Map String → Bool
  -- encoding/json and json-patch
  pub decode_patch : String → Option Error
  pub apply_patch : Obj → String → Result Obj
  pub print_stage : Stage → String
  pub parse_stage : String → Option Stage
  pub patch_operations : String → Result (List PatchOperation)
  -- the setters of server-populated metadata, and sha256 of `json.Marshal` in hexadecimal
  pub set_resource_version : Obj → String → Obj
  pub clear_managed_fields : Obj → Obj
  pub set_uid : Obj → String → Obj
  pub set_generation : Obj → ℕ → Obj
  pub clear_creation_timestamp : Obj → Obj
  pub digest : Obj → Result String
  -- sigs.k8s.io/yaml and path/filepath
  pub parse_rules : String → Result (List ExclusionRule)
  pub glob : String → String → Option Bool
  -- the API server, through the cache and past it
  pub Cluster : Type 0
  pub get : ObjectId → Cluster → Result Obj
  pub read : ObjectId → Cluster → Result Obj
  pub apply : Obj → Cluster → Result (Unit {0}) × Cluster
  pub dry_run : Obj → Cluster → Result Obj
  pub update : Obj → Cluster → Result (Unit {0}) × Cluster
  pub remove : Obj → Cluster → Result (Unit {0}) × Cluster
  pub list_pools : Cluster → Result (List Obj)
  pub read_config_map : String → Cluster → Result ConfigMap
  pub patch_config_map :
      String → String → Option String → Option ObjectId → Cluster → Result (Unit {0}) × Cluster
  pub create_config_map :
      String → String → String → Option ObjectId → Cluster → Result (Unit {0}) × Cluster
  -- what a render context holds beside the HCO, and the renderer of the asset templates
  pub Facts : Type 0
  pub render : String → Obj → Facts → Cluster → Result (Option Obj)
