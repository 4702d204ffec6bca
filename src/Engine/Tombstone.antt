-- ===== src/Engine/Tombstone.antt =====
-- pkg/engine/tombstone.go: deletion of retired resources that carry the autopilot's label.
pub mod Safety
pub mod Statuses
pub mod Policies
use virt_platform_autopilot.Prelude.{
  ℕ, zero, suc, ◌+◌, String, ◌==◌, Bool, true, false, Option, none, some, List, [], ◌∷◌, ◌||◌, ◌&&◌,
  if◌then◌else◌,
}
use virt_platform_autopilot.Prelude.Maps.{lookup}
use virt_platform_autopilot.Kube.{
  Kube, ObjectId, Error, message, wrap, Result, ok, err, is_not_found, is_no_match,
}
use virt_platform_autopilot.Engine.World.{
  World, TombstoneStatus, deleted, error, skipped, tombstone_deleted, tombstone_failed,
  tombstone_skipped, set_tombstone_status, event, api_delete, emit, emit_if,
}

abbrev pub tombstone_label : String
tombstone_label = "platform.kubevirt.io/managed-by"

abbrev pub tombstone_label_value : String
tombstone_label_value = "virt-platform-autopilot"

-- The object id holds the GVK, the namespace and the name.
pub record TombstoneMetadata : Type 0 where
  pub path : String
  pub id : ObjectId

unfoldable pub is_machine_config_tombstone_metadata : TombstoneMetadata → Bool
is_machine_config_tombstone_metadata ts =
    ts.id.group == "machineconfiguration.openshift.io" && ts.id.kind == "MachineConfig"

module _ (K : Kube) where
  open K use {Obj, Cluster, labels, get, remove}

  abbrev is_label_value : Option String → Bool
  is_label_value none = false
  is_label_value (some v) = v == tombstone_label_value

  unfoldable pub is_owned : Obj → Bool
  is_owned live = is_label_value (lookup (labels live) tombstone_label)

  -- What `Delete` answered: the status gauge, the event, the result.
  conclude_delete : Bool → TombstoneMetadata → Result (Unit {0}) → World K → Result Bool × World K
  conclude_delete has_recorder ts (err e) w = (
    err (wrap "failed to delete resource" e),
    emit_if K has_recorder (emit K w (set_tombstone_status ts.id error))
        (event tombstone_failed ts.id),
  )
  conclude_delete has_recorder ts (ok u) w = (
    ok true,
    emit_if K has_recorder (emit K w (set_tombstone_status ts.id deleted))
        (event tombstone_deleted ts.id),
  )

  -- The label check, then the delete call.
  delete_owned : Bool → TombstoneMetadata → Obj → World K → Result Bool × World K
  unfolding conclude_delete
  delete_owned has_recorder ts live w =
      if is_owned live
      then (let (r, cluster') = remove live w.cluster in
          conclude_delete has_recorder ts r
            (emit K (record w { cluster = cluster' }) (api_delete ts.id)))
      else (
        ok false,
        emit_if K has_recorder (emit K w (set_tombstone_status ts.id skipped))
            (event tombstone_skipped ts.id),
      )

  reconcile_found : Bool → TombstoneMetadata → Result Obj → World K → Result Bool × World K
  unfolding delete_owned
  reconcile_found has_recorder ts (ok live) w = delete_owned has_recorder ts live w
  reconcile_found has_recorder ts (err e) w =
      if is_not_found e || is_no_match e
      then (ok false, emit K w (set_tombstone_status ts.id deleted))
      else (
        err (wrap "failed to get resource" e),
        emit_if K has_recorder (emit K w (set_tombstone_status ts.id error))
            (event tombstone_failed ts.id),
      )

  unfoldable pub reconcile_tombstone : Bool → TombstoneMetadata → World K → Result Bool × World K
  unfolding reconcile_found
  reconcile_tombstone has_recorder ts w = reconcile_found has_recorder ts (get ts.id w.cluster) w

  -- The loop's counters.
  pub record Progress : Type 0 where
    pub deleted_count : ℕ
    pub errors : ℕ

  abbrev tally : Progress → Result Bool → Progress
  tally p (err e) = record p { errors = p.errors + 1 }
  tally p (ok true) = record p { deleted_count = p.deleted_count + 1 }
  tally p (ok false) = p

  -- The loop over the tombstones that `match` accepts; an error does not end it.
  unfoldable pub process_tombstones :
      Bool
      → (TombstoneMetadata → Bool)
      → List TombstoneMetadata
      → Progress
      → World K
      → Progress × World K
  process_tombstones has_recorder matches [] p w = (p, w)
  process_tombstones has_recorder matches (ts ∷ rest) p w =
      let (r, w') = reconcile_tombstone has_recorder ts w in
      elim (matches ts) [
        | true ↦ process_tombstones has_recorder matches rest (tally p r) w'
        | false ↦ process_tombstones has_recorder matches rest p w
      ]

  abbrev aggregated : ℕ → Option Error
  aggregated zero = none
  aggregated (suc n) = some (message "tombstone processing completed with errors")

  abbrev conclude : Progress × World K → ℕ × Option Error × World K
  conclude (p, w) = (p.deleted_count, aggregated p.errors, w)

  -- `ReconcileTombstonesMatching`, with what `LoadTombstones` returned.
  unfoldable pub reconcile_tombstones_matching :
      Bool
      → (TombstoneMetadata → Bool)
      → Result (List TombstoneMetadata)
      → World K
      → ℕ × Option Error × World K
  reconcile_tombstones_matching has_recorder matches (err e) w =
      (0, some (wrap "failed to load tombstones" e), w)
  reconcile_tombstones_matching has_recorder matches (ok tombstones) w = conclude (
      process_tombstones has_recorder matches tombstones (record { deleted_count = 0; errors = 0 })
        w)

  -- `ReconcileTombstones`: a nil match accepts every tombstone.
  unfoldable pub reconcile_tombstones :
      Bool → Result (List TombstoneMetadata) → World K → ℕ × Option Error × World K
  unfolding reconcile_tombstones_matching
  reconcile_tombstones has_recorder loaded w =
      reconcile_tombstones_matching has_recorder (λ ts. true) loaded w

  any_match : (TombstoneMetadata → Bool) → List TombstoneMetadata → Bool
  any_match matches [] = false
  any_match matches (ts ∷ rest) = matches ts || any_match matches rest

  unfoldable pub has_tombstones_matching :
      (TombstoneMetadata → Bool) → Result (List TombstoneMetadata) → Result Bool
  unfolding any_match
  has_tombstones_matching matches (err e) = err (wrap "failed to load tombstones" e)
  has_tombstones_matching matches (ok tombstones) = ok (any_match matches tombstones)
