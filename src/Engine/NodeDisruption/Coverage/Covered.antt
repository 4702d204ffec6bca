-- ===== src/Engine/NodeDisruption/Coverage/Covered.antt =====
-- What it means that a policy covers a MachineConfig, in node_disruption_policy.go.
use virt_platform_autopilot.Prelude.{
  String, eq_iff, ◌≡◌, ◌==◌, ◌⊎◌, inl, inr, refl, Bool, true, false, Bool-cases, Option, none, some,
  List, [], ◌∷◌, arith,
}
use virt_platform_autopilot.Prelude.Maps.{Map}
use virt_platform_autopilot.Kube.{Kube, Error, Result, ok, err}
use virt_platform_autopilot.Kube.Results.{◌>>◌, guard, >>=-eq-ok}
use virt_platform_autopilot.Overrides.Validation.{contains}
use virt_platform_autopilot.Engine.NodeDisruption.Coverage.{
  only_fields, as_object, given_name, is_named, has_named_entry, in_policy, covers_entries,
}

-- A check that passed, and the one after it.
pub >>-eq-ok : (m k : Result (Unit {0})) → (m >> k) ≡ ok tt → (m ≡ ok tt) × (k ≡ ok tt)
>>-eq-ok (ok u) k h = (refl, h)
>>-eq-ok (err e) k h = cc

guard-eq-ok : (b : Bool) (e : Error) → guard b e ≡ ok tt → b ≡ true
guard-eq-ok true e h = refl
guard-eq-ok false e h = cc

abbrev pub OneOf : String → List String → Type 0
OneOf s [] = ⊥
OneOf s (t ∷ ts) = (t ≡ s) ⊎ OneOf s ts

contains-OneOf : (ts : List String) (s : String) → contains ts s ≡ true → OneOf s ts
unfolding contains
contains-OneOf [] s h = cc
contains-OneOf (t ∷ ts) s h = elim (Bool-cases (t == s)) [
  | inl e ↦ inl ((eq_iff t s).0 e)
  | inr e ↦ inr (contains-OneOf ts s (rw e at h))
]

module _ (K : Kube) where
  open K use {
    Obj, Value, object, as_map, nested_map, nested_slice, nested_string, nested_string_slice,
  }

  -- Every field of the map is one of these.
  abbrev pub Only : List String → Map Value → Type 0
  Only allowed [] = Unit
  Only allowed ((field, v) ∷ m) = OneOf field allowed × Only allowed m

  pub only_fields-Only :
      (place : String) (allowed : List String) (m : Map Value)
      → only_fields K place allowed m ≡ ok tt
      → Only allowed m
  unfolding only_fields
  only_fields-Only place allowed [] h = tt
  only_fields-Only place allowed ((field, v) ∷ m) h = elim (Bool-cases (contains allowed field)) [
    | inl e ↦ (contains-OneOf allowed field e, only_fields-Only place allowed m (rw e at h))
    | inr e ↦ cc (rw e at h)
  ]

  -- An object of the list has this identifier.
  pub data Named (identifier name : String) : List Value → Type 0 where
    here :
        {v : Value} {vs : List Value} (m : Map Value)
        → as_map v ≡ some m
        → nested_string m (identifier ∷ []) ≡ ok (some name)
        → Named identifier name (v ∷ vs)
    later :
        {v : Value} {vs : List Value} → Named identifier name vs → Named identifier name (v ∷ vs)

  is_named_eq :
      (name : String) (r : Result (Option String)) → is_named K name r ≡ true → r ≡ ok (some name)
  unfolding is_named
  is_named_eq name (ok (some found)) h = ground (arith, h, eq_iff found name)
  is_named_eq name (ok none) h = cc
  is_named_eq name (err e) h = cc

  abbrev test : String → String → Option (Map Value) → Bool
  test identifier name o = elim o [
    | none ↦ false
    | some m ↦ is_named K name (nested_string m (identifier ∷ []))
  ]

  Named-here :
      (identifier name : String) (v : Value) (vs : List Value) (o : Option (Map Value))
      → as_map v ≡ o
      → test identifier name o ≡ true
      → Named identifier name (v ∷ vs)
  Named-here identifier name v vs none e h = cc
  Named-here identifier name v vs (some m) e h = here m e (is_named_eq name _ h)

  has_named_entry-Named :
      (vs : List Value) (identifier name : String)
      → has_named_entry K vs identifier name ≡ true
      → Named identifier name vs
  unfolding has_named_entry
  has_named_entry-Named [] identifier name h = cc
  has_named_entry-Named (v ∷ vs) identifier name h =
      elim (Bool-cases (test identifier name (as_map v))) [
        | inl e ↦ Named-here identifier name v vs (as_map v) refl e
        | inr e ↦ later (has_named_entry-Named vs identifier name (rw e at h))
      ]

  -- The policy has an entry for this one, which carries the identifier.
  pub record CoveredEntry (policy : Option (List Value)) (identifier : String) (v : Value)
      : Type 0 where
    pub entry : Map Value
    pub is_entry : as_map v ≡ some entry
    pub name : String
    pub has_name : nested_string entry (identifier ∷ []) ≡ ok (some name)
    pub entries : List Value
    pub has_entries : policy ≡ some entries
    pub named : Named identifier name entries

  abbrev pub AllCovered : Option (List Value) → String → List Value → Type 0
  AllCovered policy identifier [] = Unit
  AllCovered policy identifier (v ∷ vs) =
      CoveredEntry policy identifier v × AllCovered policy identifier vs

  pub as_object_eq :
      (place : String) (v : Value) (m : Map Value) → as_object K place v ≡ ok m → as_map v ≡ some m
  unfolding as_object
  as_object_eq place v m h = ground (arith, h)

  given_name_eq :
      (place identifier : String) (r : Result (Option String)) (name : String)
      → given_name K place identifier r ≡ ok name
      → r ≡ ok (some name)
  unfolding given_name
  given_name_eq place identifier (ok (some n)) name h = ground (arith, h)
  given_name_eq place identifier (ok none) name h = cc
  given_name_eq place identifier (err e) name h = cc

  covered_entry :
      (policy : Option (List Value)) (identifier name : String) (v : Value) (m : Map Value)
      → as_map v ≡ some m
      → nested_string m (identifier ∷ []) ≡ ok (some name)
      → in_policy K policy identifier name ≡ true
      → CoveredEntry policy identifier v
  unfolding in_policy
  covered_entry none identifier name v m e f h = cc
  covered_entry (some entries) identifier name v m e f h = record {
    entry = m;
    is_entry = e;
    name = name;
    has_name = f;
    entries = entries;
    has_entries = refl;
    named = has_named_entry-Named entries identifier name h;
  }

  pub covers_entries-AllCovered :
      (policy : Option (List Value)) (place identifier : String) (vs : List Value)
      → covers_entries K policy place identifier vs ≡ ok tt
      → AllCovered policy identifier vs
  unfolding covers_entries
  covers_entries-AllCovered policy place identifier [] h = tt
  covers_entries-AllCovered policy place identifier (v ∷ vs) h =
      let (m, e, h') = >>=-eq-ok (as_object K place v) _ h in
      let (name, f, h'') =
        >>=-eq-ok (given_name K place identifier (nested_string m (identifier ∷ []))) _ h' in
      let (g, rest) = >>-eq-ok _ _ h'' in
      (
        covered_entry policy identifier name v m (as_object_eq place v m e)
            (given_name_eq place identifier _ name f) (guard-eq-ok _ _ g),
        covers_entries-AllCovered policy place identifier vs rest,
      )
