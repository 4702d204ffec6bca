-- ===== src/Engine/Applier.antt =====
-- pkg/engine/applier.go: server-side apply under the autopilot's field manager and label.
use virt_platform_autopilot.Prelude.{
  String, ◌==◌, Bool, true, false, Option, none, some, if◌then◌else◌,
}
use virt_platform_autopilot.Prelude.Maps.{lookup, insert}
use virt_platform_autopilot.Kube.{
  Kube, ObjectId, Error, message, wrap, Result, ok, err, is_conflict, is_not_found,
}

abbrev pub managed_by_label : String
managed_by_label = "platform.kubevirt.io/managed-by"

abbrev pub managed_by_value : String
managed_by_value = "virt-platform-autopilot"

module _ (K : Kube) where
  open K use {Obj, Cluster, id_of, labels, set_labels, get, read, remove}

  abbrev pub is_managed_value : Option String → Bool
  is_managed_value none = false
  is_managed_value (some v) = v == managed_by_value

  unfoldable pub has_managed_by_label : Obj → Bool
  has_managed_by_label obj = is_managed_value (lookup (labels obj) managed_by_label)

  unfoldable pub ensure_managed_by_label : Obj → Obj
  ensure_managed_by_label obj =
      set_labels obj (insert (labels obj) managed_by_label managed_by_value)

  apply_error : Error → Error
  apply_error e =
      if is_conflict e
      then wrap "field ownership conflict (another controller owns fields)" e
      else wrap "failed to apply object" e

  apply_result : Result (Unit {0}) → Result Bool
  unfolding apply_error
  apply_result (ok u) = ok true
  apply_result (err e) = err (apply_error e)

  -- `Apply`: the checks, then the call with the label on a copy.
  unfoldable pub apply : Obj → Cluster → Result Bool × Cluster
  unfolding apply_result
  apply obj cluster =
      if (id_of obj).name == ""
      then (err (message "object name is empty"), cluster)
      else if (id_of obj).kind == ""
      then (err (message "object kind is empty"), cluster)
      else let (r, cluster') = K.apply (ensure_managed_by_label obj) cluster in
        (apply_result r, cluster')

  delete_result : Result (Unit {0}) → Result (Unit {0})
  delete_result (ok u) = ok u
  delete_result (err e) = if is_not_found e then ok tt else err (wrap "failed to delete object" e)

  -- `Delete`: an object that is gone already is no error.
  unfoldable pub delete : Obj → Cluster → Result (Unit {0}) × Cluster
  unfolding delete_result
  delete obj cluster = let (r, cluster') = remove obj cluster in (delete_result r, cluster')

  -- `GetDirect`: past the cache if there is a reader, else through it.
  unfoldable pub get_direct : Bool → ObjectId → Cluster → Result Obj
  get_direct true id cluster = read id cluster
  get_direct false id cluster = get id cluster
