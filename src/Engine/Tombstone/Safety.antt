-- ===== src/Engine/Tombstone/Safety.antt =====
-- What tombstone.go never deletes.
use virt_platform_autopilot.Prelude.{
  ◌≡◌, refl, Bool, true, false, List, [], ◌∷◌, ◌||◌, inl, inr, Bool-cases,
}
use virt_platform_autopilot.Kube.{Kube, Result, ok, err, is_not_found, is_no_match}
use virt_platform_autopilot.Engine.World.{World, Effect, emit_if}
use virt_platform_autopilot.Engine.Tombstone.{
  TombstoneMetadata, is_owned, delete_owned, reconcile_found, conclude_delete, reconcile_tombstone,
  Progress, tally, process_tombstones, reconcile_tombstones_matching,
}

module _ (K : Kube) where
  open K use {Obj, Cluster, get, remove}

  -- The cluster after one tombstone: untouched, or after the delete call on the live object of that
  -- identity, which carries the label.
  pub data Outcome (ts : TombstoneMetadata) (c : Cluster) : Cluster → Type 0 where
    untouched : Outcome ts c c
    removed :
        (live : Obj)
        → get ts.id c ≡ ok live
        → is_owned K live ≡ true
        → Outcome ts c (remove live c).1

  emit_if-cluster : (b : Bool) (w : World K) (e : Effect) → (emit_if K b w e).cluster ≡ w.cluster
  emit_if-cluster true w e = refl
  emit_if-cluster false w e = refl

  conclude_delete-cluster :
      (hr : Bool) (ts : TombstoneMetadata) (r : Result (Unit {0})) (w : World K)
      → (conclude_delete K hr ts r w).1.cluster ≡ w.cluster
  unfolding conclude_delete
  conclude_delete-cluster hr ts (ok u) w = emit_if-cluster hr _ _
  conclude_delete-cluster hr ts (err e) w = emit_if-cluster hr _ _

  reconcile_found-Outcome :
      (hr : Bool) (ts : TombstoneMetadata) (r : Result Obj) (w : World K)
      → get ts.id w.cluster ≡ r
      → Outcome ts w.cluster (reconcile_found K hr ts r w).1.cluster
  unfolding reconcile_found delete_owned
  reconcile_found-Outcome hr ts (ok live) w e = elim (Bool-cases (is_owned K live)) [
    | inl own ↦ rw own (rw (conclude_delete-cluster hr ts _ _) (removed live e own))
    | inr not_own ↦ rw not_own (rw (emit_if-cluster hr _ _) untouched)
  ]
  reconcile_found-Outcome hr ts (err x) w e = elim (Bool-cases (is_not_found x || is_no_match x)) [
    | inl gone ↦ rw gone untouched
    | inr failing ↦ rw failing (rw (emit_if-cluster hr _ _) untouched)
  ]

  -- A tombstone leaves the cluster as it is, or makes it what the delete call leaves, on the live
  -- object of the tombstone's identity and only if that object carries the autopilot's label.
  pub reconcile_tombstone-Outcome :
      (hr : Bool) (ts : TombstoneMetadata) (w : World K)
      → Outcome ts w.cluster (reconcile_tombstone K hr ts w).1.cluster
  unfolding reconcile_tombstone
  reconcile_tombstone-Outcome hr ts w = reconcile_found-Outcome hr ts (get ts.id w.cluster) w refl

  module _ (P : Cluster → Type 0)
      (removal : (c : Cluster) (live : Obj)
        → is_owned K live ≡ true
        → P c
        → P (remove live c).1) where
    Outcome-keeps : {ts : TombstoneMetadata} {c c' : Cluster} → Outcome ts c c' → P c → P c'
    Outcome-keeps untouched h = h
    Outcome-keeps (removed live e own) h = removal _ live own h

    process_tombstones-keeps :
        (hr : Bool) (matches : TombstoneMetadata → Bool) (tombstones : List TombstoneMetadata)
        (p : Progress K) (w : World K)
        → P w.cluster
        → P (process_tombstones K hr matches tombstones p w).1.cluster
    unfolding process_tombstones
    process_tombstones-keeps hr matches [] p w h = h
    process_tombstones-keeps hr matches (ts ∷ rest) p w h = elim (Bool-cases (matches ts)) [
      | inl m ↦
          rw (m, process_tombstones)
            (process_tombstones-keeps hr matches rest (tally K p (reconcile_tombstone K hr ts w).0)
              (reconcile_tombstone K hr ts w).1
              (Outcome-keeps (reconcile_tombstone-Outcome hr ts w) h))
      | inr m ↦ rw (m, process_tombstones) (process_tombstones-keeps hr matches rest p w h)
    ]

    -- A property of the cluster that the deletion of no labelled object breaks holds after the
    -- whole tombstone cleanup if it held before.
    pub reconcile_tombstones_matching-keeps :
        (hr : Bool) (matches : TombstoneMetadata → Bool) (loaded : Result (List TombstoneMetadata))
        (w : World K)
        → P w.cluster
        → P (reconcile_tombstones_matching K hr matches loaded w).2.cluster
    unfolding reconcile_tombstones_matching
    reconcile_tombstones_matching-keeps hr matches (err e) w h = h
    reconcile_tombstones_matching-keeps hr matches (ok tombstones) w h =
        process_tombstones-keeps hr matches tombstones (record { deleted_count = 0; errors = 0 }) w
          h
