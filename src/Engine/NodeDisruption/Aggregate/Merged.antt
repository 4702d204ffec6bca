-- ===== src/Engine/NodeDisruption/Aggregate/Merged.antt =====
-- The merge of node_disruption_policy.go loses no entry: what an active asset contributes stands in the
-- aggregate.
use virt_platform_autopilot.Prelude.{
  String, ◌==◌, eq_iff, ◌≡◌, refl, sym, ap, ◌∙◌, inl, inr, true, Bool-cases, Option, none, some,
  List, [], ◌∷◌, arith,
}
use virt_platform_autopilot.Prelude.Maps.{Map, lookup, insert, lookup-insert, lookup-insert_self}
use virt_platform_autopilot.Kube.{Kube, Result, ok, err}
use virt_platform_autopilot.Kube.Results.{>>=-eq-ok, guard_then}
use virt_platform_autopilot.Engine.NodeDisruption.Aggregate.{
  merge_object, merge_key, fits, merge_each,
}

module _ (K : Kube) where
  open K use {Obj, Value, Cluster, Facts, as_map, nested_map, nested_slice, nested_string, same_map}

  -- There is a value, deeply equal to this one.
  pub record Stands (v : Map Value) (o : Option (Map Value)) : Type 0 where
    pub value : Map Value
    pub is_value : o ≡ some value
    pub same : same_map v value ≡ true

  abbrev pub Keeps : Map (Map Value) → Map (Map Value) → Type 0
  Keeps m n = (key : String) (v : Map Value) → Stands v (lookup m key) → Stands v (lookup n key)

  -- An entry of a policy, which stands in the merged map under its key.
  pub record MergedEntry (identifier : String) (m : Map (Map Value)) (v : Value) : Type 0 where
    pub entry : Map Value
    pub is_entry : as_map v ≡ some entry
    pub key : String
    pub has_key : nested_string entry (identifier ∷ []) ≡ ok (some key)
    pub stands : Stands entry (lookup m key)

  abbrev pub AllMerged : String → Map (Map Value) → List Value → Type 0
  AllMerged identifier m [] = Unit
  AllMerged identifier m (v ∷ vs) = MergedEntry identifier m v × AllMerged identifier m vs

  merge_object_eq :
      (field : String) (o : Option (Map Value)) (m : Map Value)
      → merge_object K field o ≡ ok m
      → o ≡ some m
  unfolding merge_object
  merge_object_eq field none m h = cc
  merge_object_eq field (some n) m h = cc

  merge_key_eq :
      (field identifier : String) (r : Result (Option String)) (key : String)
      → merge_key K field identifier r ≡ ok key
      → r ≡ ok (some key)
  unfolding merge_key
  merge_key_eq field identifier (ok (some k)) key h = ground (arith, h)
  merge_key_eq field identifier (ok none) key h = cc
  merge_key_eq field identifier (err e) key h = cc

  -- One round of the loop.
  record Round (field identifier : String) (v : Value) (vs : List Value) (m n : Map (Map Value))
      : Type 0 where
    entry : Map Value
    is_entry : as_map v ≡ some entry
    key : String
    has_key : nested_string entry (identifier ∷ []) ≡ ok (some key)
    fit : fits K entry (lookup m key) ≡ true
    rest : merge_each K field identifier vs (insert m key entry) ≡ ok n

  merge_each-Round :
      (field identifier : String) (v : Value) (vs : List Value) (m n : Map (Map Value))
      → merge_each K field identifier (v ∷ vs) m ≡ ok n
      → Round field identifier v vs m n
  unfolding merge_each
  merge_each-Round field identifier v vs m n h =
      let (entry, e, h1) = >>=-eq-ok (merge_object K field (as_map v)) _ h in
      let (key, k, h2) =
        >>=-eq-ok (merge_key K field identifier (nested_string entry (identifier ∷ []))) _ h1 in
      let (f, r) = guard_then (fits K entry (lookup m key)) _ _ h2 in
      record {
        entry = entry;
        is_entry = merge_object_eq field _ entry e;
        key = key;
        has_key = merge_key_eq field identifier _ key k;
        fit = f;
        rest = r;
      }

module _ (K : Kube) (same_refl : (m : Map (Kube.Value K)) → Kube.same_map K m m ≡ true)
    (same_trans : (l m n : Map (Kube.Value K))
      → Kube.same_map K l m ≡ true
      → Kube.same_map K m n ≡ true
      → Kube.same_map K l n ≡ true) where
  open K use {Obj, Value, Cluster, Facts, as_map, nested_map, nested_slice, nested_string, same_map}

  insert-Keeps :
      (m : Map (Map Value)) (key : String) (v : Map Value)
      → fits K v (lookup m key) ≡ true
      → Keeps K m (insert m key v)
  unfolding fits
  insert-Keeps m key v f j w s = elim (Bool-cases (key == j)) [
    | inl e ↦ record {
      value = v;
      is_value = lookup-insert m key j v ∙ (rw e refl);
      same = same_trans w s.value v s.same (fits_value s.value (found e));
    }
    | inr e ↦ record {
      value = s.value;
      is_value = lookup-insert m key j v ∙ (rw e s.is_value);
      same = s.same;
    }
  ]
    where
      found : key == j ≡ true → lookup m key ≡ some s.value
      found e = ap (lookup m) ((eq_iff key j).0 e) ∙ s.is_value

      fits_value : (x : Map Value) → lookup m key ≡ some x → same_map x v ≡ true
      fits_value x e = rw e at f

  pub merge_each-Keeps :
      (field identifier : String) (vs : List Value) (m n : Map (Map Value))
      → merge_each K field identifier vs m ≡ ok n
      → Keeps K m n
  unfolding merge_each
  merge_each-Keeps field identifier [] m n h =
      let e : m ≡ n = cc in
      λ key v s. record {
        value = s.value;
        is_value = ap (λ x. lookup x key) (sym e) ∙ s.is_value;
        same = s.same;
      }
  merge_each-Keeps field identifier (v ∷ vs) m n h =
      let r = merge_each-Round K field identifier v vs m n h in
      λ key w s.
        merge_each-Keeps field identifier vs _ n r.rest key w
          (insert-Keeps m r.key r.entry r.fit key w s)

  pub merge_each-AllMerged :
      (field identifier : String) (vs : List Value) (m n : Map (Map Value))
      → merge_each K field identifier vs m ≡ ok n
      → AllMerged K identifier n vs
  merge_each-AllMerged field identifier [] m n h = tt
  merge_each-AllMerged field identifier (v ∷ vs) m n h =
      let r = merge_each-Round K field identifier v vs m n h in
      (
        record {
          entry = r.entry;
          is_entry = r.is_entry;
          key = r.key;
          has_key = r.has_key;
          stands = merge_each-Keeps field identifier vs _ n r.rest r.key r.entry (record {
            value = r.entry;
            is_value = lookup-insert_self m r.key r.entry;
            same = same_refl r.entry;
          });
        },
        merge_each-AllMerged field identifier vs _ n r.rest,
      )
