-- ===== src/Engine/NodeDisruption/Matching/Agrees.antt =====
-- What it means that a policy has all that an asset asks for, in node_disruption_policy.go.
use mathlib.Core.Path.{subst}
use Prim.Native.String.{◌++◌}
use virt_platform_autopilot.Prelude.{
  String, ◌≡◌, refl, Bool, true, false, Option, none, some, List, [], ◌∷◌,
}
use virt_platform_autopilot.Prelude.Maps.{Map}
use virt_platform_autopilot.Kube.{Kube, Result, ok}
use virt_platform_autopilot.Kube.Results.{
  in_context, >>=-eq-ok, in_context-eq-ok, IfPresent, absent, present,
}
use virt_platform_autopilot.Engine.NodeDisruption.Matching.{
  Match, not_requested, mismatched, matched, match_of, match_got, match_want, match_field,
  match_key, match_wanted_key, match_ssh_key, unless_mismatched, entries_match,
}
use virt_platform_autopilot.Engine.NodeDisruption.Matching.Answered.{
  SameActions, AllAnswered, actions_match-SameActions, named_entries_match-AllAnswered,
}

-- The comparison went on.
abbrev Passed : Match → Type 0
Passed not_requested = Unit
Passed matched = Unit
Passed mismatched = ⊥

ok-Passed : (m n : Match) → ok m ≡ ok n → Passed n → Passed m
ok-Passed m n e p = let f : n ≡ m = cc in subst Passed f p

unless_mismatched-Passed :
    (m : Match) (rest : Result Bool)
    → unless_mismatched m rest ≡ ok true
    → Passed m × (rest ≡ ok true)
unless_mismatched-Passed not_requested rest h = (tt, h)
unless_mismatched-Passed matched rest h = (tt, h)
unless_mismatched-Passed mismatched rest h = cc

Passed-match_of : (b : Bool) → Passed (match_of b) → b ≡ true
Passed-match_of true p = refl
Passed-match_of false p = absurd p

module _ (K : Kube) where
  open K use {Value, as_map, nested_map, nested_slice, nested_string, same_list}

  -- The entries of one field of the policy in effect, which answer those asked for.
  pub record FieldAnswered (actual : Map Value) (field identifier : String) (want : List Value)
      : Type 0 where
    pub got : List Value
    pub has_got : nested_slice actual (field ∷ []) ≡ ok (some got)
    pub all : AllAnswered K got identifier want

  got_answered :
      (actual : Map Value) (field identifier : String) (want : List Value) (o : Option (List Value))
      → nested_slice actual (field ∷ []) ≡ ok o
      → Passed (match_got K identifier want o)
      → FieldAnswered actual field identifier want
  unfolding match_got
  got_answered actual field identifier want none e p = absurd p
  got_answered actual field identifier want (some got) e p = record {
    got = got;
    has_got = e;
    all = named_entries_match-AllAnswered K got want identifier (Passed-match_of _ p);
  }

  want_answered :
      (actual expected : Map Value) (field identifier : String) (o : Option (List Value))
      (m : Match)
      → nested_slice expected (field ∷ []) ≡ ok o
      → match_want K actual field identifier o ≡ ok m
      → Passed m
      → IfPresent (nested_slice expected (field ∷ [])) (FieldAnswered actual field identifier)
  unfolding match_want
  want_answered actual expected field identifier none m e h p = absent e
  want_answered actual expected field identifier (some []) m e h p = cc
  want_answered actual expected field identifier (some (v ∷ vs)) m e h p =
      let (got, f, g) = >>=-eq-ok (nested_slice actual (field ∷ [])) _ h in
      present (v ∷ vs) e (got_answered actual field identifier (v ∷ vs) got f (ok-Passed _ m g p))

  field_answered :
      (actual expected : Map Value) (field identifier : String) (m : Match)
      → match_field K actual expected field identifier ≡ ok m
      → Passed m
      → IfPresent (nested_slice expected (field ∷ [])) (FieldAnswered actual field identifier)
  unfolding match_field
  field_answered actual expected field identifier m h p =
      let (o, e, f) =
        >>=-eq-ok (in_context ("read requested node disruption policy " ++ field) _) _ h in
      want_answered actual expected field identifier o m (in_context-eq-ok _ _ e) f p

  -- The SSH key entry of the policy in effect, with the actions asked for.
  pub record KeyAnswered (actual : Map Value) (want : Map Value) : Type 0 where
    pub got : Map Value
    pub has_got : nested_map actual ("sshkey" ∷ []) ≡ ok (some got)
    pub same : SameActions K got want

  got-KeyAnswered :
      (actual want : Map Value) (o : Option (Map Value)) (m : Match)
      → nested_map actual ("sshkey" ∷ []) ≡ ok o
      → match_key K want o ≡ ok m
      → Passed m
      → KeyAnswered actual want
  unfolding match_key
  got-KeyAnswered actual want none m e f p = absurd (ok-Passed mismatched m f p)
  got-KeyAnswered actual want (some got) m e f p = record {
    got = got;
    has_got = e;
    same = actions_match-SameActions K got want (Passed-match_of _ (ok-Passed _ m f p));
  }

  want-KeyAnswered :
      (actual expected : Map Value) (o : Option (Map Value)) (m : Match)
      → nested_map expected ("sshkey" ∷ []) ≡ ok o
      → match_wanted_key K actual o ≡ ok m
      → Passed m
      → IfPresent (nested_map expected ("sshkey" ∷ [])) (KeyAnswered actual)
  unfolding match_wanted_key
  want-KeyAnswered actual expected none m e h p = absent e
  want-KeyAnswered actual expected (some want) m e h p =
      let (got, f, g) = >>=-eq-ok (nested_map actual ("sshkey" ∷ [])) _ h in
      present want e (got-KeyAnswered actual want got m f g p)

  key_answered :
      (actual expected : Map Value) (m : Match)
      → match_ssh_key K actual expected ≡ ok m
      → Passed m
      → IfPresent (nested_map expected ("sshkey" ∷ [])) (KeyAnswered actual)
  unfolding match_ssh_key
  key_answered actual expected m h p =
      let (o, e, f) = >>=-eq-ok (in_context "read requested node disruption policy sshkey" _) _ h in
      want-KeyAnswered actual expected o m (in_context-eq-ok _ _ e) f p

  -- The policy in effect has all that is asked for.
  pub record Agrees (actual expected : Map Value) : Type 0 where
    pub files :
        IfPresent (nested_slice expected ("files" ∷ [])) (FieldAnswered actual "files" "path")
    pub units :
        IfPresent (nested_slice expected ("units" ∷ [])) (FieldAnswered actual "units" "name")
    pub ssh_key : IfPresent (nested_map expected ("sshkey" ∷ [])) (KeyAnswered actual)

  pub entries_match-Agrees :
      (actual expected : Map Value)
      → entries_match K actual expected ≡ ok true
      → Agrees actual expected
  unfolding entries_match
  entries_match-Agrees actual expected h =
      let (f, ef, h1) = >>=-eq-ok (match_field K actual expected "files" "path") _ h in
      let (pf, h2) = unless_mismatched-Passed f _ h1 in
      let (u, eu, h3) = >>=-eq-ok (match_field K actual expected "units" "name") _ h2 in
      let (pu, h4) = unless_mismatched-Passed u _ h3 in
      let (k, ek, h5) = >>=-eq-ok (match_ssh_key K actual expected) _ h4 in
      let (pk, h6) = unless_mismatched-Passed k _ h5 in
      record {
        files = field_answered actual expected "files" "path" f ef pf;
        units = field_answered actual expected "units" "name" u eu pu;
        ssh_key = key_answered actual expected k ek pk;
      }
