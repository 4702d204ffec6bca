-- ===== src/Engine/Tombstone/Policies/Uncovered.antt =====
-- What it means that no retired MachineConfig has node disruption policy actions in effect, for
-- pkg/engine/tombstone.go.
use virt_platform_autopilot.Prelude.{
  String, ◌≡◌, ◌≢◌, refl, sym, ◌∙◌, ◌==◌, eq_iff, inl, inr, Bool-cases, arith, Bool, true, false,
  Option, none, some, List, [], ◌∷◌, if◌then◌else◌,
}
use virt_platform_autopilot.Prelude.Maps.{Map}
use virt_platform_autopilot.Kube.{Kube, Result, ok}
use virt_platform_autopilot.Kube.Results.{◌>>=◌, >>=-eq-ok}
use virt_platform_autopilot.Overrides.Validation.{contains}
use virt_platform_autopilot.Engine.Tombstone.Policies.{
  or_empty, add_name, entry_names, is_effective, any_effective, field_effective,
  machine_config_effective,
}

ok-eq : {A : Type 0} {a b : A} → ok a ≡ ok b → a ≡ b
ok-eq h = cc

module _ (K : Kube) where
  open K use {Obj, Value, Cluster, object, as_map, nested_map, nested_slice, nested_string, get}

  -- Where there is a list, its entries have the property.
  abbrev pub WhereListed : (List Value → Type 0) → Option (List Value) → Type 0
  WhereListed P none = Unit
  WhereListed P (some vs) = P vs

  -- No object of the list carries the name.
  abbrev pub NotCalled : String → String → Option (Map Value) → Type 0
  NotCalled identifier name none = Unit
  NotCalled identifier name (some m) = nested_string m (identifier ∷ []) ≢ ok (some name)

  abbrev pub NoneCalled : String → String → List Value → Type 0
  NoneCalled identifier name [] = Unit
  NoneCalled identifier name (v ∷ vs) =
      NotCalled identifier name (as_map v) × NoneCalled identifier name vs

  -- An entry that is an object has no name, or one that no reported object carries.
  abbrev pub NameOutside : Option (List Value) → String → Option String → Type 0
  NameOutside reported identifier none = Unit
  NameOutside reported identifier (some name) = WhereListed (NoneCalled identifier name) reported

  abbrev pub EntryOutside : Option (List Value) → String → Option (Map Value) → Type 0
  EntryOutside reported identifier none = Unit
  EntryOutside reported identifier (some m) =
      (o : Option String) × (nested_string m (identifier ∷ []) ≡ ok o)
      × NameOutside reported identifier o

  abbrev pub AllOutside : Option (List Value) → String → List Value → Type 0
  AllOutside reported identifier [] = Unit
  AllOutside reported identifier (v ∷ vs) =
      EntryOutside reported identifier (as_map v) × AllOutside reported identifier vs

  -- The entries of one field of the MachineConfig, none of which the policy in effect names.
  pub record FieldOutside (machine_config : Obj) (effective : Map Value)
      (field section entry_field identifier : String) : Type 0 where
    pub acted_on : Option (List Value)
    pub has_actions : nested_slice effective (field ∷ []) ≡ ok acted_on
    pub entries : Option (List Value)
    pub has_entries :
        nested_slice (object machine_config) ("spec" ∷ "config" ∷ section ∷ entry_field ∷ [])
        ≡ ok entries
    pub outside : WhereListed (AllOutside acted_on identifier) entries

  pub record Outside (machine_config : Obj) (effective : Map Value) : Type 0 where
    pub files : FieldOutside machine_config effective "files" "storage" "files" "path"
    pub units : FieldOutside machine_config effective "units" "systemd" "units" "name"

  pub if_true :
      (b : Bool) (r : Result Bool)
      → (if b then ok true else r) ≡ ok false
      → (b ≡ false) × (r ≡ ok false)
  if_true true r h = cc
  if_true false r h = (refl, h)

  add_name-contains :
      (name : String) (o : Option String) (names : List String)
      → contains (add_name K o names) name ≡ false
      → (o ≢ some name) × (contains names name ≡ false)
  unfolding add_name contains
  add_name-contains name none names h = ((λ p. cc), h)
  add_name-contains name (some other) names h = elim (Bool-cases (other == name)) [
    | inl e ↦ cc (rw e at h)
    | inr e ↦ ((λ p. ground (arith, p, e, eq_iff other name)), rw e at h)
  ]

  entry_names-NoneCalled :
      (identifier name : String) (vs : List Value) (names : List String)
      → entry_names K identifier vs ≡ ok names
      → contains names name ≡ false
      → NoneCalled identifier name vs
  unfolding entry_names
  entry_names-NoneCalled identifier name [] names e h = tt
  entry_names-NoneCalled identifier name (v ∷ vs) names e h =
      entry (as_map v) (λ rest. entry_names-NoneCalled identifier name vs rest) e
    where
      entry :
          (o : Option (Map Value))
          → ((rest : List String)
              → entry_names K identifier vs ≡ ok rest
              → contains rest name ≡ false
              → NoneCalled identifier name vs)
          → (elim o [
            | none ↦ entry_names K identifier vs
            | some m ↦ nested_string m (identifier ∷ []) >>= λ name.
                entry_names K identifier vs >>= λ rest. ok (add_name K name rest)
          ])
            ≡ ok names
          → NotCalled identifier name o × NoneCalled identifier name vs
      entry none ih g = (tt, ih names g h)
      entry (some m) ih g =
          let (o, a, b) = >>=-eq-ok (nested_string m (identifier ∷ [])) _ g in
          let (rest, c, d) = >>=-eq-ok (entry_names K identifier vs) _ b in
          let d' : add_name K o rest ≡ names = cc in
          let (n, k) = add_name-contains name o rest (rw d' h) in
          ((λ p. n (ok-eq (sym a ∙ p))), ih rest c k)

  listed : (P : List Value → Type 0) (o : Option (List Value)) → P (or_empty o) → WhereListed P o
  listed P none p = tt
  listed P (some vs) p = p

  module _ (reported : Option (List Value)) (names : List String) (identifier : String)
      (read : entry_names K identifier (or_empty reported) ≡ ok names) where
    is_effective-NameOutside :
        (o : Option String) → is_effective K names o ≡ false → NameOutside reported identifier o
    unfolding is_effective
    is_effective-NameOutside none h = tt
    is_effective-NameOutside (some name) h =
        listed (NoneCalled identifier name) reported
          (entry_names-NoneCalled identifier name (or_empty reported) names read h)

    any_effective-AllOutside :
        (vs : List Value)
        → any_effective K names identifier vs ≡ ok false
        → AllOutside reported identifier vs
    unfolding any_effective
    any_effective-AllOutside [] h = tt
    any_effective-AllOutside (v ∷ vs) h = entry (as_map v) (any_effective-AllOutside vs) h
      where
        entry :
            (o : Option (Map Value))
            → (any_effective K names identifier vs ≡ ok false → AllOutside reported identifier vs)
            → (elim o [
              | none ↦ any_effective K names identifier vs
              | some m ↦ nested_string m (identifier ∷ []) >>= λ name.
                  if is_effective K names name then ok true else any_effective K names identifier vs
            ])
              ≡ ok false
            → EntryOutside reported identifier o × AllOutside reported identifier vs
        entry none rest g = (tt, rest g)
        entry (some m) rest g =
            let (name, e, f) = >>=-eq-ok (nested_string m (identifier ∷ [])) _ g in
            let (n, r) = if_true (is_effective K names name) _ f in
            ((name, e, is_effective-NameOutside name n), rest r)

  field_effective-FieldOutside :
      (machine_config : Obj) (effective : Map Value) (field section entry_field identifier : String)
      → field_effective K machine_config effective field section entry_field identifier ≡ ok false
      → FieldOutside machine_config effective field section entry_field identifier
  unfolding field_effective
  field_effective-FieldOutside machine_config effective field section entry_field identifier h =
      let (a, ea, h1) = >>=-eq-ok (nested_slice effective (field ∷ [])) _ h in
      let (names, en, h2) = >>=-eq-ok (entry_names K identifier (or_empty a)) _ h1 in
      let (es, ee, h3) =
        >>=-eq-ok
          (nested_slice (object machine_config) ("spec" ∷ "config" ∷ section ∷ entry_field ∷ [])) _
          h2 in
      record {
        acted_on = a;
        has_actions = ea;
        entries = es;
        has_entries = ee;
        outside =
            listed (AllOutside a identifier) es
              (any_effective-AllOutside a names identifier en (or_empty es) h3);
      }

  pub machine_config_effective-Outside :
      (machine_config : Obj) (effective : Map Value)
      → machine_config_effective K machine_config effective ≡ ok false
      → Outside machine_config effective
  unfolding machine_config_effective
  machine_config_effective-Outside machine_config effective h =
      let (b, e, f) =
        >>=-eq-ok (field_effective K machine_config effective "files" "storage" "files" "path") _
          h in
      let (n, u) = if_true b _ f in
      record {
        files = field_effective-FieldOutside machine_config effective _ _ _ _ (rw n at e);
        units = field_effective-FieldOutside machine_config effective _ _ _ _ u;
      }
