-- ===== src/Engine/NodeDisruption/Matching.antt =====
-- `nodeDisruptionPolicyEntriesMatch` of node_disruption_policy.go: whether the entries that an asset asks for
-- stand in a policy.
pub mod Answered
pub mod Agrees
use Prim.Native.String.{◌++◌}
use virt_platform_autopilot.Prelude.{
  String, ◌==◌, Bool, true, false, ◌&&◌, ◌||◌, Option, none, some, List, [], ◌∷◌, if◌then◌else◌,
}
use virt_platform_autopilot.Prelude.Maps.{Map}
use virt_platform_autopilot.Kube.{Kube, message, Error, Result, ok, err}
use virt_platform_autopilot.Kube.Results.{◌>>=◌, in_context}

-- What the comparison of one kind of entries says; the code continues, or returns false.
pub data Match : Type 0 where
  not_requested mismatched matched : Match

abbrev pub match_of : Bool → Match
match_of true = matched
match_of false = mismatched

-- `return false` on a mismatch.
abbrev pub unless_mismatched : Match → Result Bool → Result Bool
unless_mismatched mismatched rest = ok false
unless_mismatched not_requested rest = rest
unless_mismatched matched rest = rest

module _ (K : Kube) where
  open K use {Value, as_map, nested_map, nested_slice, nested_string, same_list}

  same_actions : Result (Option (List Value)) → Result (Option (List Value)) → Bool
  same_actions (ok (some actual)) (ok (some expected)) = same_list actual expected
  same_actions _ _ = false

  -- `nodeDisruptionPolicyActionsMatch`
  unfoldable pub actions_match : Map Value → Map Value → Bool
  unfolding same_actions
  actions_match actual expected =
      same_actions (nested_slice actual ("actions" ∷ [])) (nested_slice expected ("actions" ∷ []))

  -- An entry without the identifier has the empty one.
  has_identifier : String → Result (Option String) → Bool
  has_identifier name (err e) = false
  has_identifier name (ok none) = "" == name
  has_identifier name (ok (some found)) = found == name

  -- The inner loop: the first object with the identifier.
  unfoldable pub find_entry : List Value → String → String → Option (Map Value)
  unfolding has_identifier
  find_entry [] identifier name = none
  find_entry (entry ∷ entries) identifier name =
      let rest = find_entry entries identifier name in
      elim (as_map entry) [
        | none ↦ rest
        | some m ↦ if has_identifier name (nested_string m (identifier ∷ [])) then some m else rest
      ]

  compare_found : Option (Map Value) → Map Value → Bool
  compare_found none expected = false
  compare_found (some actual) expected = actions_match actual expected

  compare_named : List Value → String → Map Value → Result (Option String) → Bool
  unfolding compare_found
  compare_named actual identifier expected (ok (some name)) =
      compare_found (find_entry actual identifier name) expected
  compare_named actual identifier expected _ = false

  entry_matches : List Value → String → Option (Map Value) → Bool
  unfolding compare_named
  entry_matches actual identifier none = false
  entry_matches actual identifier (some expected) =
      compare_named actual identifier expected (nested_string expected (identifier ∷ []))

  -- `nodeDisruptionPolicyNamedEntriesMatch`
  unfoldable pub named_entries_match : List Value → List Value → String → Bool
  unfolding entry_matches
  named_entries_match actual [] identifier = true
  named_entries_match actual (entry ∷ entries) identifier =
      entry_matches actual identifier (as_map entry)
      && named_entries_match actual entries identifier

  match_got : String → List Value → Option (List Value) → Match
  match_got identifier want none = mismatched
  match_got identifier want (some got) = match_of (named_entries_match got want identifier)

  match_want : Map Value → String → String → Option (List Value) → Result Match
  unfolding match_got
  match_want actual field identifier none = ok not_requested
  match_want actual field identifier (some []) =
      err (message ("requested node disruption policy " ++ field ++ " is empty"))
  match_want actual field identifier (some (entry ∷ entries)) = do
    got ← nested_slice actual (field ∷ [])
    ok (match_got identifier (entry ∷ entries) got)

  -- One round of the loop over files and units.
  unfoldable pub match_field : Map Value → Map Value → String → String → Result Match
  unfolding match_want
  match_field actual expected field identifier = do
    want ←
        in_context ("read requested node disruption policy " ++ field)
          (nested_slice expected (field ∷ []))
    match_want actual field identifier want

  match_key : Map Value → Option (Map Value) → Result Match
  match_key want none = ok mismatched
  match_key want (some got) = ok (match_of (actions_match got want))

  match_wanted_key : Map Value → Option (Map Value) → Result Match
  unfolding match_key
  match_wanted_key actual none = ok not_requested
  match_wanted_key actual (some want) = do
    got ← nested_map actual ("sshkey" ∷ [])
    match_key want got

  unfoldable pub match_ssh_key : Map Value → Map Value → Result Match
  unfolding match_wanted_key
  match_ssh_key actual expected = do
    want ←
        in_context "read requested node disruption policy sshkey"
          (nested_map expected ("sshkey" ∷ []))
    match_wanted_key actual want

  require_requested : Match → Match → Match → Result Bool
  require_requested not_requested not_requested not_requested =
      err (message "requested node disruption policy has neither files, units, nor sshkey")
  require_requested _ _ _ = ok true

  -- `nodeDisruptionPolicyEntriesMatch`
  unfoldable pub entries_match : Map Value → Map Value → Result Bool
  unfolding require_requested
  entries_match actual expected = do
    files ← match_field actual expected "files" "path"
    unless_mismatched files (do
      units ← match_field actual expected "units" "name"
      unless_mismatched units (do
        key ← match_ssh_key actual expected
        unless_mismatched key (require_requested files units key)))
