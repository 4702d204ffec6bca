-- ===== src/Engine/Tombstone/Statuses.antt =====
-- What the tombstone loop of tombstone.go reports of every tombstone.
use mathlib.Core.List.{append-nil, append_assoc}
use virt_platform_autopilot.Prelude.{
  ◌≡◌, refl, sym, ap, ◌∙◌, Bool, true, false, List, [], ◌∷◌, ◌++◌, ◌||◌, inl, inr, if◌then◌else◌,
  Bool-cases,
}
use virt_platform_autopilot.Kube.{Kube, ObjectId, Result, ok, err, is_not_found, is_no_match}
use virt_platform_autopilot.Engine.World.{
  World, Effect, EventReason, TombstoneStatus, event, api_delete, deleted, error, skipped,
  tombstone_deleted, tombstone_failed, tombstone_skipped, set_tombstone_status, emit, emit_if,
}
use virt_platform_autopilot.Engine.Tombstone.{
  TombstoneMetadata, is_owned, delete_owned, reconcile_found, conclude_delete, reconcile_tombstone,
  Progress, tally, process_tombstones,
}

abbrev status_of : Effect → List ObjectId
status_of (set_tombstone_status id s) = id ∷ []
status_of _ = []

-- The identities whose status gauge the trace sets, in its order.
abbrev pub statuses : List Effect → List ObjectId
statuses [] = []
statuses (e ∷ es) = status_of e ++ statuses es

-- The identities of the tombstones that are selected.
abbrev pub selected : (TombstoneMetadata → Bool) → List TombstoneMetadata → List ObjectId
selected matches [] = []
selected matches (ts ∷ rest) =
    if matches ts then ts.id ∷ selected matches rest else selected matches rest

statuses-append :
    (es : List Effect) (e : Effect) → statuses (es ++ e ∷ []) ≡ statuses es ++ status_of e
statuses-append [] e = append-nil (status_of e)
statuses-append (x ∷ es) e =
    ap (λ l. status_of x ++ l) (statuses-append es e)
    ∙ sym (append_assoc (status_of x) (statuses es) (status_of e))

module _ (K : Kube) where
  open K use {Obj, get, remove}

  emit_if-statuses :
      (b : Bool) (w : World K) (r : EventReason) (id : ObjectId)
      → statuses (emit_if K b w (event r id)).trace ≡ statuses w.trace
  emit_if-statuses true w r id =
      statuses-append w.trace (event r id) ∙ append-nil (statuses w.trace)
  emit_if-statuses false w r id = refl

  set_status :
      (hr : Bool) (ts : TombstoneMetadata) (s : TombstoneStatus) (r : EventReason) (w : World K)
      → statuses (emit_if K hr (emit K w (set_tombstone_status ts.id s)) (event r ts.id)).trace
        ≡ statuses w.trace ++ ts.id ∷ []
  set_status hr ts s r w =
      emit_if-statuses hr (emit K w (set_tombstone_status ts.id s)) r ts.id
      ∙ statuses-append w.trace (set_tombstone_status ts.id s)

  conclude_delete-statuses :
      (hr : Bool) (ts : TombstoneMetadata) (r : Result (Unit {0})) (w : World K)
      → statuses (conclude_delete K hr ts r w).1.trace ≡ statuses w.trace ++ ts.id ∷ []
  unfolding conclude_delete
  conclude_delete-statuses hr ts (ok u) w = set_status hr ts deleted tombstone_deleted w
  conclude_delete-statuses hr ts (err e) w = set_status hr ts error tombstone_failed w

  reconcile_found-statuses :
      (hr : Bool) (ts : TombstoneMetadata) (r : Result Obj) (w : World K)
      → statuses (reconcile_found K hr ts r w).1.trace ≡ statuses w.trace ++ ts.id ∷ []
  unfolding reconcile_found delete_owned
  reconcile_found-statuses hr ts (ok live) w = elim (Bool-cases (is_owned K live)) [
    | inl own ↦ rw own (
        conclude_delete-statuses hr ts (remove live w.cluster).0
          (emit K (record w { cluster = (remove live w.cluster).1 }) (api_delete ts.id))
        ∙ ap (λ l. l ++ ts.id ∷ [])
            (statuses-append w.trace (api_delete ts.id) ∙ append-nil (statuses w.trace)))
    | inr not_own ↦ rw not_own (set_status hr ts skipped tombstone_skipped w)
  ]
  reconcile_found-statuses hr ts (err x) w = elim (Bool-cases (is_not_found x || is_no_match x)) [
    | inl gone ↦ rw gone (statuses-append w.trace (set_tombstone_status ts.id deleted))
    | inr failing ↦ rw failing (set_status hr ts error tombstone_failed w)
  ]

  reconcile_tombstone-statuses :
      (hr : Bool) (ts : TombstoneMetadata) (w : World K)
      → statuses (reconcile_tombstone K hr ts w).1.trace ≡ statuses w.trace ++ ts.id ∷ []
  unfolding reconcile_tombstone
  reconcile_tombstone-statuses hr ts w = reconcile_found-statuses hr ts (get ts.id w.cluster) w

  -- The tombstone loop sets the status gauge exactly once for each selected tombstone, under the
  -- tombstone's own identity and in the order of the tombstones, whatever fails, and for nothing
  -- else.
  pub process_tombstones-statuses :
      (hr : Bool) (matches : TombstoneMetadata → Bool) (tombstones : List TombstoneMetadata)
      (p : Progress K) (w : World K)
      → statuses (process_tombstones K hr matches tombstones p w).1.trace
        ≡ statuses w.trace ++ selected matches tombstones
  unfolding process_tombstones
  process_tombstones-statuses hr matches [] p w = sym (append-nil (statuses w.trace))
  process_tombstones-statuses hr matches (ts ∷ rest) p w =
      let (r, w') = reconcile_tombstone K hr ts w in
      elim (Bool-cases (matches ts)) [
        | inl m ↦
            rw (m, process_tombstones)
              (process_tombstones-statuses hr matches rest (tally K p r) w'
                ∙ ap (λ l. l ++ selected matches rest) (reconcile_tombstone-statuses hr ts w)
                ∙ append_assoc (statuses w.trace) (ts.id ∷ []) (selected matches rest))
        | inr m ↦ rw (m, process_tombstones) (process_tombstones-statuses hr matches rest p w)
      ]
