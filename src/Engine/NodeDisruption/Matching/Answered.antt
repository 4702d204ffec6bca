-- ===== src/Engine/NodeDisruption/Matching/Answered.antt =====
-- What it means that an entry which an asset asks for stands in a policy, in node_disruption_policy.go.
use mathlib.Core.Bool.{false≢true}
use mathlib.Core.Path.{subst}
use virt_platform_autopilot.Prelude.{
  String, ◌≡◌, ◌⊎◌, ◌↔◌, eq_iff, sym, ap, ◌∙◌, inl, inr, refl, true, Bool-cases, if◌then◌else◌,
  Option, none, some, List, [], ◌∷◌,
}
use virt_platform_autopilot.Prelude.Maps.{Map}
use virt_platform_autopilot.Kube.{Kube, Result, ok, err}
use virt_platform_autopilot.Engine.NodeDisruption.Matching.{
  same_actions, actions_match, has_identifier, find_entry, compare_found, compare_named,
  entry_matches, named_entries_match,
}

module _ (K : Kube) where
  open K use {Value, as_map, nested_map, nested_slice, nested_string, same_list}

  -- Both have actions, and they are the same.
  pub record SameActions (actual expected : Map Value) : Type 0 where
    pub got : List Value
    pub want : List Value
    pub has_got : nested_slice actual ("actions" ∷ []) ≡ ok (some got)
    pub has_want : nested_slice expected ("actions" ∷ []) ≡ ok (some want)
    pub same : same_list got want ≡ true

  same_actions-SameActions :
      (actual expected : Map Value) (r s : Result (Option (List Value)))
      → nested_slice actual ("actions" ∷ []) ≡ r
      → nested_slice expected ("actions" ∷ []) ≡ s
      → same_actions K r s ≡ true
      → SameActions actual expected
  unfolding same_actions
  same_actions-SameActions actual expected (ok (some got)) (ok (some want)) e f h = record {
    got = got;
    want = want;
    has_got = e;
    has_want = f;
    same = h;
  }
  same_actions-SameActions actual expected (ok (some got)) (ok none) e f h = cc
  same_actions-SameActions actual expected (ok (some got)) (err x) e f h = cc
  same_actions-SameActions actual expected (ok none) s e f h = cc
  same_actions-SameActions actual expected (err x) s e f h = cc

  pub actions_match-SameActions :
      (actual expected : Map Value)
      → actions_match K actual expected ≡ true
      → SameActions actual expected
  unfolding actions_match
  actions_match-SameActions actual expected h =
      same_actions-SameActions actual expected _ _ refl refl h

  -- An object has this identifier; a missing one counts as empty.
  abbrev pub Carries : String → String → Map Value → Type 0
  Carries identifier name m =
      (nested_string m (identifier ∷ []) ≡ ok (some name))
      ⊎ ((nested_string m (identifier ∷ []) ≡ ok none) × (name ≡ ""))

  abbrev pub NotCarried : String → String → Option (Map Value) → Type 0
  NotCarried identifier name none = Unit
  NotCarried identifier name (some m) = ¬ Carries identifier name m

  -- The first object of the list that has this identifier.
  pub data First (identifier name : String) (found : Map Value) : List Value → Type 0 where
    here :
        {v : Value} {vs : List Value}
        → as_map v ≡ some found
        → Carries identifier name found
        → First identifier name found (v ∷ vs)
    later :
        {v : Value} {vs : List Value}
        → NotCarried identifier name (as_map v)
        → First identifier name found vs
        → First identifier name found (v ∷ vs)

  has_identifier-Carries :
      (name : String) (r : Result (Option String))
      → (has_identifier K name r ≡ true) ↔ ((r ≡ ok (some name)) ⊎ ((r ≡ ok none) × (name ≡ "")))
  unfolding has_identifier
  has_identifier-Carries name (err e) = ((λ h. cc), λ x. elim x [ inl a ↦ cc | inr a ↦ cc (a.0) ])
  has_identifier-Carries name (ok none) = (
    (λ h. inr (refl, sym ((eq_iff "" name).0 h))),
    λ x. elim x [ inl a ↦ cc | inr a ↦ (eq_iff "" name).1 (sym a.1) ],
  )
  has_identifier-Carries name (ok (some found)) = (
    (λ h. inl (ap (λ n. ok (some n)) ((eq_iff found name).0 h))),
    λ x. elim x [ inl a ↦ (eq_iff found name).1 (cc) | inr a ↦ cc (a.0) ],
  )

  find_entry-First :
      (vs : List Value) (identifier name : String) (found : Map Value)
      → find_entry K vs identifier name ≡ some found
      → First identifier name found vs
  unfolding find_entry
  find_entry-First [] identifier name found h = cc
  find_entry-First (v ∷ vs) identifier name found h =
      entry (as_map v) refl (find_entry-First vs identifier name found) h
    where
      entry :
          (o : Option (Map Value))
          → as_map v ≡ o
          → (find_entry K vs identifier name ≡ some found → First identifier name found vs)
          → (elim o [
            | none ↦ find_entry K vs identifier name
            | some m ↦
                if has_identifier K name (nested_string m (identifier ∷ []))
                then some m
                else find_entry K vs identifier name
          ])
            ≡ some found
          → First identifier name found (v ∷ vs)
      entry none e ih g = later (rw e tt) (ih g)
      entry (some m) e ih g =
          elim (Bool-cases (has_identifier K name (nested_string m (identifier ∷ [])))) [
            | inl p ↦
                let q : m ≡ found = cc (rw p at g) in
                here (e ∙ ap some q)
                  (subst (Carries identifier name) q ((has_identifier-Carries name _).0 p))
            | inr p ↦
                later
                  (rw e (λ c. absurd (false≢true (sym p ∙ (has_identifier-Carries name _).1 c))))
                  (ih (rw p at g))
          ]

  -- An entry asked for, which has its identifier, and the first one of that identifier, with the same actions.
  pub record Answered (actual : List Value) (identifier : String) (v : Value) : Type 0 where
    pub expected : Map Value
    pub is_expected : as_map v ≡ some expected
    pub name : String
    pub has_name : nested_string expected (identifier ∷ []) ≡ ok (some name)
    pub found : Map Value
    pub is_found : First identifier name found actual
    pub same : SameActions found expected

  abbrev pub AllAnswered : List Value → String → List Value → Type 0
  AllAnswered actual identifier [] = Unit
  AllAnswered actual identifier (v ∷ vs) =
      Answered actual identifier v × AllAnswered actual identifier vs

  Answered-found :
      (actual : List Value) (identifier : String) (v : Value) (m : Map Value) (name : String)
      (o : Option (Map Value))
      → as_map v ≡ some m
      → nested_string m (identifier ∷ []) ≡ ok (some name)
      → find_entry K actual identifier name ≡ o
      → compare_found K o m ≡ true
      → Answered actual identifier v
  unfolding compare_found
  Answered-found actual identifier v m name none e f g h = cc
  Answered-found actual identifier v m name (some found) e f g h = record {
    expected = m;
    is_expected = e;
    name = name;
    has_name = f;
    found = found;
    is_found = find_entry-First actual identifier name found g;
    same = actions_match-SameActions found m h;
  }

  Answered-named :
      (actual : List Value) (identifier : String) (v : Value) (m : Map Value)
      (r : Result (Option String))
      → as_map v ≡ some m
      → nested_string m (identifier ∷ []) ≡ r
      → compare_named K actual identifier m r ≡ true
      → Answered actual identifier v
  unfolding compare_named
  Answered-named actual identifier v m (ok (some name)) e f h =
      Answered-found actual identifier v m name _ e f refl h
  Answered-named actual identifier v m (ok none) e f h = cc
  Answered-named actual identifier v m (err x) e f h = cc

  Answered-entry :
      (actual : List Value) (identifier : String) (v : Value) (o : Option (Map Value))
      → as_map v ≡ o
      → entry_matches K actual identifier o ≡ true
      → Answered actual identifier v
  unfolding entry_matches
  Answered-entry actual identifier v none e h = cc
  Answered-entry actual identifier v (some m) e h = Answered-named actual identifier v m _ e refl h

  pub named_entries_match-AllAnswered :
      (actual vs : List Value) (identifier : String)
      → named_entries_match K actual vs identifier ≡ true
      → AllAnswered actual identifier vs
  unfolding named_entries_match
  named_entries_match-AllAnswered actual [] identifier h = tt
  named_entries_match-AllAnswered actual (v ∷ vs) identifier h =
      elim (Bool-cases (entry_matches K actual identifier (as_map v))) [
        | inl e ↦ (
          Answered-entry actual identifier v _ refl e,
          named_entries_match-AllAnswered actual vs identifier (rw e at h),
        )
        | inr e ↦ cc (rw e at h)
      ]
