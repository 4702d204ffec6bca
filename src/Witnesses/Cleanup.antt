-- ===== src/Witnesses/Cleanup.antt =====
-- Runs of the tombstone cleanup of pkg/engine/tombstone.go.
use virt_platform_autopilot.Prelude.{◌≡◌, inl, inr, refl, true, List, [], ◌∷◌, Bool-cases}
use virt_platform_autopilot.Prelude.Maps.{lookup}
use virt_platform_autopilot.Kube.{ok, ObjectId}
use virt_platform_autopilot.Engine.World.{World}
use virt_platform_autopilot.Engine.Tombstone.{
  TombstoneMetadata, tombstone_label, tombstone_label_value, is_owned, reconcile_tombstone,
  process_tombstones, reconcile_tombstones_matching,
}
use virt_platform_autopilot.Engine.Tombstone.Safety.{
  Outcome, reconcile_tombstone-Outcome, reconcile_tombstones_matching-keeps,
}
use virt_platform_autopilot.Engine.Tombstone.Statuses.{statuses, process_tombstones-statuses}
use virt_platform_autopilot.Witnesses.{small, Thing, widget_id, widget, without, same_id}

abbrev owned : Thing
owned = record widget { tags = (tombstone_label, tombstone_label_value) ∷ [] }

abbrev retired : TombstoneMetadata
retired = record { path = "tombstones/w.yaml"; id = widget_id }

abbrev world : World small
world = record { cluster = owned ∷ []; trace = [] }

removes : (reconcile_tombstone small true retired world).1.cluster ≡ []
unfolding reconcile_tombstone is_owned lookup
removes = refl

reconcile_tombstone-Outcome_example :
    Outcome small retired (owned ∷ []) (reconcile_tombstone small true retired world).1.cluster
reconcile_tombstone-Outcome_example = reconcile_tombstone-Outcome small true retired world

-- Every object of the cluster carries the label.
abbrev AllOwned : List Thing → Type 0
AllOwned [] = Unit
AllOwned (t ∷ ts) = (is_owned small t ≡ true) × AllOwned ts

without-AllOwned : (id : ObjectId) (ts : List Thing) → AllOwned ts → AllOwned (without id ts)
without-AllOwned id [] h = tt
without-AllOwned id (t ∷ ts) h = elim (Bool-cases (same_id t.id id)) [
  | inl e ↦ rw e (without-AllOwned id ts h.1)
  | inr e ↦ rw e (h.0, without-AllOwned id ts h.1)
]

reconcile_tombstones_matching-keeps_example :
    AllOwned
      (reconcile_tombstones_matching small true (λ ts. true) (ok (retired ∷ [])) world).2.cluster
unfolding is_owned lookup
reconcile_tombstones_matching-keeps_example =
    reconcile_tombstones_matching-keeps small AllOwned
      (λ c live own h. without-AllOwned live.id c h) true (λ ts. true) (ok (retired ∷ [])) world
      (refl, tt)

process_tombstones-statuses_example :
    statuses
      (process_tombstones small true
        (λ ts. true)
        (retired ∷ retired ∷ [])
        (record { deleted_count = 0; errors = 0 })
        world).1.trace
    ≡ widget_id ∷ widget_id ∷ []
process_tombstones-statuses_example =
    process_tombstones-statuses small true (λ ts. true) (retired ∷ retired ∷ [])
      (record { deleted_count = 0; errors = 0 }) world
