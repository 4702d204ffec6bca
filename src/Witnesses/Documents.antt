-- ===== src/Witnesses/Documents.antt =====
-- Objects with JSON content, and the accessors of unstructured objects on them, for the results on node disruption
-- policies.
use Prim.Native.String.{◌++◌}
use virt_platform_autopilot.Prelude.{
  ◌&&◌, String, ◌==◌, eq_refl, eq_iff, ◌≡◌, ◌∙◌, refl, Bool, true, Option, none, some, List, [],
  ◌∷◌, if◌then◌else◌,
}
use virt_platform_autopilot.Prelude.Maps.{Map, lookup}
use virt_platform_autopilot.Engine.NodeDisruption.Effective.{machine_configuration_id}
use virt_platform_autopilot.Kube.{Kube, ObjectId, api, not_found, message, Result, ok, err}

mutual
  pub data Json : Type 0 where
    text : String → Json
    seq : Items → Json
    obj : Fields → Json

  pub data Items : Type 0 where
    no_items : Items
    item : Json → Items → Items

  pub data Fields : Type 0 where
    no_fields : Fields
    field : String → Json → Fields → Fields

abbrev pub items : List Json → Items
items [] = no_items
items (v ∷ vs) = item v (items vs)

abbrev pub items_of : Items → List Json
items_of no_items = []
items_of (item v vs) = v ∷ items_of vs

abbrev pub fields : Map Json → Fields
fields [] = no_fields
fields ((k, v) ∷ m) = field k v (fields m)

abbrev pub fields_of : Fields → Map Json
fields_of no_fields = []
fields_of (field k v m) = (k, v) ∷ fields_of m

abbrev pub map_of : Json → Option (Map Json)
map_of (obj m) = some (fields_of m)
map_of _ = none

-- `unstructured.NestedFieldNoCopy`
abbrev pub at : List String → Json → Result (Option Json)
at [] v = ok (some v)
at (key ∷ path) (obj m) = elim (lookup (fields_of m) key) [ none ↦ ok none | some v ↦ at path v ]
at (key ∷ path) _ = err (message "not an object")

abbrev pub typed : {A : Type 0} → (Json → Option A) → Result (Option Json) → Result (Option A)
typed read (ok none) = ok none
typed read (ok (some v)) = elim (read v) [
  | none ↦ err (message "wrong type")
  | some a ↦ ok (some a)
]
typed read (err e) = err e

abbrev pub string_of : Json → Option String
string_of (text s) = some s
string_of _ = none

abbrev pub seq_of : Json → Option (List Json)
seq_of (seq vs) = some (items_of vs)
seq_of _ = none

abbrev pub texts_of : List Json → List String
texts_of [] = []
texts_of (text s ∷ vs) = s ∷ texts_of vs
texts_of (_ ∷ vs) = texts_of vs

abbrev pub strings_of : Json → Option (List String)
strings_of (seq vs) = some (texts_of (items_of vs))
strings_of _ = none

unfoldable mutual
  pub print : Json → String
  print (text s) = "'" ++ s ++ "'"
  print (seq vs) = "[" ++ print_items vs ++ "]"
  print (obj m) = "{" ++ print_fields m ++ "}"

  pub print_items : Items → String
  print_items no_items = ""
  print_items (item v vs) = print v ++ "," ++ print_items vs

  pub print_fields : Fields → String
  print_fields no_fields = ""
  print_fields (field k v m) = "'" ++ k ++ "':" ++ print v ++ "," ++ print_fields m

abbrev pub print_list : List Json → String
print_list [] = ""
print_list (v ∷ vs) = print v ++ "," ++ print_list vs

abbrev pub print_map : Map Json → String
print_map [] = ""
print_map ((k, v) ∷ m) = "'" ++ k ++ "':" ++ print v ++ "," ++ print_map m

pub record Document : Type 0 where
  pub id : ObjectId
  pub notes : Map String
  pub tags : Map String
  pub body : Map Json

abbrev pub same_id : ObjectId → ObjectId → Bool
same_id a b = a.kind == b.kind && a.namespace == b.namespace && a.name == b.name

abbrev pub find : ObjectId → List Document → Result Document
find id [] = err (api (not_found "no such object"))
find id (d ∷ ds) = let rest = find id ds in if same_id d.id id then ok d else rest

abbrev pub without : ObjectId → List Document → List Document
without id [] = []
without id (d ∷ ds) = let rest = without id ds in if same_id d.id id then rest else d ∷ rest

abbrev pub one : String → Json → Json
one k v = obj (field k v no_fields)

abbrev pub listed : Json → Json
listed v = seq (item v no_items)

-- One file entry, with its actions.
abbrev pub file_policy : Json
file_policy = one "files" (
    listed
      (obj (field "path" (text "/etc/a") (field "actions" (listed (text "Restart")) no_fields))))

abbrev pub policy_document : Document
policy_document = record {
  id = machine_configuration_id;
  notes = [];
  tags = [];
  body = ("spec", one "nodeDisruptionPolicy" file_policy) ∷ [];
}

abbrev pub live_policy : Document
live_policy = record policy_document {
  body = ("status", one "nodeDisruptionPolicyStatus" (one "clusterPolicies" file_policy)) ∷ [];
}

abbrev pub config_id : ObjectId
config_id = record {
  group = "machineconfiguration.openshift.io";
  version = "v1";
  kind = "MachineConfig";
  namespace = "";
  name = "m";
}

abbrev pub config_of : String → Document
config_of path = record {
  id = config_id;
  notes = [];
  tags = [];
  body =
      ("spec", one "config" (one "storage" (one "files" (listed (one "path" (text path)))))) ∷ [];
}

abbrev pub documents : Kube
documents = record {
  Obj = Document;
  id_of = λ o. o.id;
  annotations = λ o. o.notes;
  set_annotations = λ o m. record o { notes = m };
  labels = λ o. o.tags;
  set_labels = λ o m. record o { tags = m };
  id_of-set_annotations = λ o m. refl;
  annotations-set_annotations = λ o m. refl;
  labels-set_annotations = λ o m. refl;
  id_of-set_labels = λ o m. refl;
  labels-set_labels = λ o m. refl;
  annotations-set_labels = λ o m. refl;
  Value = Json;
  object = λ o. o.body;
  as_map = map_of;
  of_map = λ m. obj (fields m);
  deep_equal = λ a b. print_map a == print_map b;
  nested_field = λ o p. at p (obj (fields o.body));
  set_nested_field = λ o v p. ok o;
  remove_nested_field = λ o p. o;
  uid = λ o. "1";
  as_string = string_of;
  nested_map = λ m p. typed map_of (at p (obj (fields m)));
  nested_string_map = λ m p. ok none;
  nested_slice = λ m p. typed seq_of (at p (obj (fields m)));
  nested_string = λ m p. typed string_of (at p (obj (fields m)));
  nested_bool = λ m p. ok none;
  nested_string_slice = λ m p. typed strings_of (at p (obj (fields m)));
  nested_generation = λ m p. ok (some 1);
  generation = λ o. 1;
  same_map = λ a b. print_map a == print_map b;
  same_list = λ a b. print_list a == print_list b;
  of_list = λ vs. seq (items vs);
  new_object = λ id m. record { id = id; notes = []; tags = []; body = m };
  Requirement = String;
  as_requirement = λ v. ok "";
  Selector = String;
  label_selector = λ m rs. ok "";
  selects = λ s m. true;
  decode_patch = λ s. none;
  apply_patch = λ o s. ok o;
  print_stage = λ s. s.desired_hash;
  parse_stage = λ s. none;
  patch_operations = λ s. ok [];
  set_resource_version = λ o v. o;
  clear_managed_fields = λ o. o;
  set_uid = λ o u. o;
  set_generation = λ o n. o;
  clear_creation_timestamp = λ o. o;
  digest = λ o. ok "h";
  parse_rules = λ s. ok [];
  glob = λ p s. some (p == s);
  Cluster = List Document;
  get = find;
  read = find;
  apply = λ o c. (ok tt, o ∷ without o.id c);
  dry_run = λ o c. ok o;
  update = λ o c. (ok tt, o ∷ without o.id c);
  remove = λ o c. (ok tt, without o.id c);
  list_pools = λ c. ok [];
  read_config_map = λ ns c. err (api (not_found "no such map"));
  patch_config_map = λ ns k v o c. (ok tt, c);
  create_config_map = λ ns k v o c. (ok tt, c);
  Facts = Unit {0};
  render = λ name hco facts c.
      ok (some (if name == "policy" then policy_document else config_of "/etc/a"));
}

pub same_map_refl : (m : Map Json) → documents.same_map m m ≡ true
same_map_refl m = eq_refl (print_map m)

pub same_map_trans :
    (l m n : Map Json)
    → documents.same_map l m ≡ true
    → documents.same_map m n ≡ true
    → documents.same_map l n ≡ true
same_map_trans l m n a b =
    (eq_iff _ _).1
      ((eq_iff (print_map l) (print_map m)).0 a ∙ (eq_iff (print_map m) (print_map n)).0 b)
