-- ===== src/Engine/NodeDisruption/Reconcile/Changes.antt =====
-- The change count of node_disruption_policy.go is 0 just where the two indices agree.
use virt_platform_autopilot.Prelude.{
  ◌+◌, String, ◌==◌, eq_iff, eq_refl, ◌≡◌, ◌↔◌, refl, inl, inr, true, false, Bool-cases, Option,
  none, some, List, [], ◌∷◌, is_some, arith,
}
use virt_platform_autopilot.Prelude.Maps.{Map, lookup, Distinct, insert-Distinct}
use virt_platform_autopilot.Kube.{Kube, Result, ok, err}
use virt_platform_autopilot.Engine.NodeDisruption.Reconcile.{
  index_named, index_entry, index_entries, index_found, entry_index, differs, count_changed,
  count_removed, keyed_entry_changes,
}

module _ (K : Kube) where
  open K use {Obj, Value, as_map, object, nested_slice, nested_string, same_map}

  -- Both are missing, or both are there and deeply equal.
  abbrev pub Alike : Option (Map Value) → Option (Map Value) → Type 0
  Alike none none = Unit
  Alike none (some got) = ⊥
  Alike (some want) none = ⊥
  Alike (some want) (some got) = same_map want got ≡ true

  changed_none :
      (live desired : Map (Map Value)) (key : String) (want : Map Value)
      → count_changed K live desired ≡ 0
      → lookup desired key ≡ some want
      → differs K want (lookup live key) ≡ false
  unfolding count_changed lookup
  changed_none live [] key want h e = cc
  changed_none live ((k, w) ∷ desired) key want h e =
      elim (Bool-cases (differs K w (lookup live k))) [
        | inl d ↦ absurd (let h' = rw d at h in omega (arith, h'))
        | inr d ↦ elim (Bool-cases (k == key)) [
          | inl q ↦ let same : w ≡ want = cc (rw q at e) in rw (← same, ← (eq_iff k key).0 q) d
          | inr q ↦ changed_none live desired key want (rw d at h) (rw q at e)
        ]
      ]

  removed_none :
      (desired live : Map (Map Value)) (key : String) (got : Map Value)
      → count_removed K desired live ≡ 0
      → lookup live key ≡ some got
      → is_some (lookup desired key) ≡ true
  unfolding count_removed lookup
  removed_none desired [] key got h e = cc
  removed_none desired ((k, g) ∷ live) key got h e =
      elim (Bool-cases (is_some (lookup desired k))) [
        | inl d ↦ elim (Bool-cases (k == key)) [
          | inl q ↦ rw (← (eq_iff k key).0 q) d
          | inr q ↦ removed_none desired live key got (rw d at h) (rw q at e)
        ]
        | inr d ↦ absurd (let h' = rw d at h in omega (arith, h'))
      ]

  differs-Alike :
      (want : Map Value) (o : Option (Map Value)) → differs K want o ≡ false → Alike (some want) o
  unfolding differs
  differs-Alike want none h = cc
  differs-Alike want (some got) h = elim (Bool-cases (same_map want got)) [
    | inl e ↦ e
    | inr e ↦ cc (rw e at h)
  ]

  Alike-differs :
      (want : Map Value) (o : Option (Map Value)) → Alike (some want) o → differs K want o ≡ false
  unfolding differs
  Alike-differs want none h = absurd h
  Alike-differs want (some got) h = rw h refl

  -- An index of the desired object and one of the live object agree.
  abbrev pub SameIndex : Map (Map Value) → Map (Map Value) → Type 0
  SameIndex wanted found = (key : String) → Alike (lookup wanted key) (lookup found key)

  counted-Alike :
      (wanted found : Map (Map Value))
      → count_changed K found wanted ≡ 0
      → count_removed K wanted found ≡ 0
      → (key : String) (o p : Option (Map Value)) → lookup wanted key ≡ o
      → lookup found key ≡ p
      → Alike o p
  counted-Alike wanted found c r key none none e f = tt
  counted-Alike wanted found c r key none (some got) e f =
      cc (rw e at (removed_none wanted found key got r f))
  counted-Alike wanted found c r key (some want) p e f =
      differs-Alike want p (rw f at (changed_none found wanted key want c e))

  no_changes-SameIndex :
      (wanted found : Map (Map Value))
      → count_changed K found wanted + count_removed K wanted found ≡ 0
      → SameIndex wanted found
  no_changes-SameIndex wanted found h key =
      counted-Alike wanted found (omega (arith, h)) (omega (arith, h)) key _ _ refl refl

  lookup_behind :
      (k key : String) (w v : Map Value) (m : Map (Map Value))
      → lookup m k ≡ none
      → lookup m key ≡ some v
      → lookup ((k, w) ∷ m) key ≡ some v
  unfolding lookup
  lookup_behind k key w v m n e = elim (Bool-cases (k == key)) [
    | inl q ↦ cc (rw ((eq_iff k key).0 q) at n, e)
    | inr q ↦ rw q e
  ]

  lookup_front : (k : String) (w : Map Value) (m : Map (Map Value)) → lookup ((k, w) ∷ m) k ≡ some w
  unfolding lookup
  lookup_front k w m = rw (eq_refl k) refl

  changed_zero :
      (live desired : Map (Map Value))
      → Distinct desired
      → ((key : String) (want : Map Value)
          → lookup desired key ≡ some want
          → differs K want (lookup live key) ≡ false)
      → count_changed K live desired ≡ 0
  unfolding count_changed
  changed_zero live [] d h = refl
  changed_zero live ((k, w) ∷ desired) (n, d) h = rw (h k w (lookup_front k w desired)) (
      changed_zero live desired d
        (λ key want e. h key want (lookup_behind k key w want desired n e)))

  removed_zero :
      (desired live : Map (Map Value))
      → Distinct live
      → ((key : String) (got : Map Value)
          → lookup live key ≡ some got
          → is_some (lookup desired key) ≡ true)
      → count_removed K desired live ≡ 0
  unfolding count_removed
  removed_zero desired [] d h = refl
  removed_zero desired ((k, g) ∷ live) (n, d) h =
      rw (h k g (lookup_front k g live))
        (removed_zero desired live d (λ key got e. h key got (lookup_behind k key g got live n e)))

  Alike-is_some : (o : Option (Map Value)) (got : Map Value) → Alike o (some got) → is_some o ≡ true
  Alike-is_some none got h = absurd h
  Alike-is_some (some want) got h = refl

  SameIndex-no_changes :
      (wanted found : Map (Map Value))
      → Distinct wanted
      → Distinct found
      → SameIndex wanted found
      → count_changed K found wanted + count_removed K wanted found ≡ 0
  SameIndex-no_changes wanted found d e h =
      let c = changed_zero found wanted d (λ key want q. Alike-differs want _ (rw q at (h key))) in
      let r = removed_zero wanted found e (λ key got q. Alike-is_some _ got (rw q at (h key))) in
      omega (arith, c, r)

  index_named-Distinct :
      (m : Map Value) (r : Result (Option String)) (index : Map (Map Value))
      → Distinct index
      → Distinct (index_named K m r index)
  unfolding index_named
  index_named-Distinct m (ok (some key)) index d = elim (Bool-cases (key == "")) [
    | inl e ↦ rw e d
    | inr e ↦ rw e (insert-Distinct index key m d)
  ]
  index_named-Distinct m (ok none) index d = d
  index_named-Distinct m (err e) index d = d

  index_entry-Distinct :
      (identifier : String) (o : Option (Map Value)) (index : Map (Map Value))
      → Distinct index
      → Distinct (index_entry K identifier o index)
  unfolding index_entry
  index_entry-Distinct identifier none index d = d
  index_entry-Distinct identifier (some m) index d =
      index_named-Distinct m (nested_string m (identifier ∷ [])) index d

  index_entries-Distinct :
      (identifier : String) (vs : List Value) (index : Map (Map Value))
      → Distinct index
      → Distinct (index_entries K identifier vs index)
  unfolding index_entries
  index_entries-Distinct identifier [] index d = d
  index_entries-Distinct identifier (v ∷ vs) index d =
      index_entries-Distinct identifier vs _ (index_entry-Distinct identifier (as_map v) index d)

  index_found-Distinct :
      (identifier : String) (r : Result (Option (List Value)))
      → Distinct (index_found K identifier r)
  unfolding index_found
  index_found-Distinct identifier (ok (some vs)) = index_entries-Distinct identifier vs [] tt
  index_found-Distinct identifier (ok none) = tt
  index_found-Distinct identifier (err e) = tt

  entry_index-Distinct :
      (o : Option Obj) (field identifier : String) → Distinct (entry_index K o field identifier)
  unfolding entry_index
  entry_index-Distinct none field identifier = tt
  entry_index-Distinct (some obj) field identifier =
      index_found-Distinct identifier
        (nested_slice (object obj) ("spec" ∷ "nodeDisruptionPolicy" ∷ field ∷ []))

  -- The count of changed entries is 0 exactly when the desired and the live object have entries
  -- under the same keys, with deeply equal content.
  pub keyed_entry_changes_iff :
      (desired live : Option Obj) (field identifier : String)
      → keyed_entry_changes K desired live field identifier ≡ 0
        ↔ SameIndex (entry_index K desired field identifier) (entry_index K live field identifier)
  unfolding keyed_entry_changes
  keyed_entry_changes_iff desired live field identifier = (
    no_changes-SameIndex _ _,
    SameIndex-no_changes _ _ (entry_index-Distinct desired field identifier)
        (entry_index-Distinct live field identifier),
  )
