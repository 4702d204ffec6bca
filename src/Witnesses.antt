-- ===== src/Witnesses.antt =====
-- A small cluster of objects that carry their annotations and labels, on which the results on the
-- throttling, the checks and the reconciler are run.
pub mod Limits
pub mod Checks
pub mod Cleanup
pub mod Runs
pub mod Catalog
pub mod Gates
pub mod Documents
pub mod Policies
pub mod Platform
use virt_platform_autopilot.Prelude.{
  String, ◌==◌, Bool, true, none, some, List, [], ◌∷◌, refl, ◌&&◌, if◌then◌else◌,
}
use virt_platform_autopilot.Prelude.Maps.{Map}
use virt_platform_autopilot.Kube.{Kube, api, not_found, Result, ok, err, ObjectId}
use virt_platform_autopilot.Overrides.Validation.{patch_annotation}

-- An object of the small cluster.
record Thing : Type 0 where
  id : ObjectId
  notes : Map String
  tags : Map String

abbrev same_id : ObjectId → ObjectId → Bool
same_id a b = a.kind == b.kind && a.namespace == b.namespace && a.name == b.name

abbrev find : ObjectId → List Thing → Result Thing
find id [] = err (api (not_found "no such object"))
find id (t ∷ ts) = let rest = find id ts in if same_id t.id id then ok t else rest

abbrev without : ObjectId → List Thing → List Thing
without id [] = []
without id (t ∷ ts) = let rest = without id ts in if same_id t.id id then rest else t ∷ rest

abbrev put : Thing → List Thing → Result (Unit {0}) × List Thing
put t ts = (ok tt, t ∷ without t.id ts)

abbrev widget_id : ObjectId
widget_id = record { group = "demo"; version = "v1"; kind = "Widget"; namespace = ""; name = "w" }

abbrev widget : Thing
widget = record { id = widget_id; notes = []; tags = [] }

abbrev small : Kube
small = record {
  Obj = Thing;
  id_of = λ o. o.id;
  annotations = λ o. o.notes;
  set_annotations = λ o m. record o { notes = m };
  labels = λ o. o.tags;
  set_labels = λ o m. record o { tags = m };
  id_of-set_annotations = λ o m. refl;
  annotations-set_annotations = λ o m. refl;
  labels-set_annotations = λ o m. refl;
  id_of-set_labels = λ o m. refl;
  labels-set_labels = λ o m. refl;
  annotations-set_labels = λ o m. refl;
  Value = String;
  object = λ o. [];
  as_map = λ v. none;
  of_map = λ m. "";
  deep_equal = λ a b. true;
  nested_field = λ o p. ok none;
  set_nested_field = λ o v p. ok o;
  remove_nested_field = λ o p. o;
  uid = λ o. "1";
  as_string = λ v. some v;
  nested_map = λ m p. ok none;
  nested_string_map = λ m p. ok none;
  nested_slice = λ m p. ok none;
  nested_string = λ m p. ok none;
  nested_bool = λ m p. ok none;
  nested_string_slice = λ m p. ok none;
  nested_generation = λ m p. ok none;
  generation = λ o. 0;
  same_map = λ a b. true;
  same_list = λ a b. true;
  of_list = λ vs. "";
  new_object = λ id m. record { id = id; notes = []; tags = [] };
  Requirement = String;
  as_requirement = λ v. ok v;
  Selector = String;
  label_selector = λ m rs. ok "";
  selects = λ s m. true;
  decode_patch = λ s. none;
  apply_patch = λ o s. ok o;
  print_stage = λ s. s.desired_hash;
  parse_stage = λ s. none;
  patch_operations = λ s. ok (record { op = "remove"; path = s; from = "" } ∷ []);
  set_resource_version = λ o v. o;
  clear_managed_fields = λ o. o;
  set_uid = λ o u. o;
  set_generation = λ o n. o;
  clear_creation_timestamp = λ o. o;
  digest = λ o. ok "h";
  parse_rules = λ s. ok (record { kind = s; namespace = ""; name = "w" } ∷ []);
  glob = λ p s. some (p == s);
  Cluster = List Thing;
  get = find;
  read = find;
  apply = put;
  dry_run = λ o c. ok o;
  update = put;
  remove = λ o c. (ok tt, without o.id c);
  list_pools = λ c. ok [];
  read_config_map = λ ns c. err (api (not_found "no such map"));
  patch_config_map = λ ns k v o c. (ok tt, c);
  create_config_map = λ ns k v o c. (ok tt, c);
  Facts = Unit {0};
  render = λ name hco facts c. ok (some widget);
}

abbrev patched_role : Thing
patched_role = record {
  id = record {
    group = "rbac.authorization.k8s.io";
    version = "v1";
    kind = "ClusterRole";
    namespace = "";
    name = "r";
  };
  notes = (patch_annotation, "[]") ∷ [];
  tags = [];
}
