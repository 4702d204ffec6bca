-- ===== src/Engine/NodeDisruption/Coverage.antt =====
-- `nodeDisruptionPolicyCoversMachineConfig` of node_disruption_policy.go: a policy covers Ignition files,
-- systemd units and SSH keys, and nothing else of a MachineConfig.
pub mod Covered
pub mod Users
pub mod Sound
use Prim.Native.String.{◌++◌}
use virt_platform_autopilot.Prelude.{
  String, ◌==◌, Bool, true, false, not, ◌&&◌, ◌||◌, Option, none, some, List, [], ◌∷◌,
  if◌then◌else◌,
}
use virt_platform_autopilot.Prelude.Maps.{Map}
use virt_platform_autopilot.Kube.{Kube, message, Error, Result, ok, err}
use virt_platform_autopilot.Kube.Results.{◌>>=◌, ◌>>◌, guard, in_context, when_found}
use virt_platform_autopilot.Overrides.Validation.{contains}

module _ (K : Kube) where
  open K use {
    Obj, Value, object, as_map, nested_map, nested_slice, nested_string, nested_string_slice,
  }

  -- The loops that reject a field outside a list.
  unfoldable pub only_fields : String → List String → Map Value → Result (Unit {0})
  only_fields place allowed [] = ok tt
  only_fields place allowed ((field, v) ∷ m) =
      let rest = only_fields place allowed m in
      if contains allowed field
      then rest
      else err
          (message ("node disruption policy cannot cover MachineConfig " ++ place ++ "." ++ field))

  -- `requireOnlyFields`
  unfoldable pub require_only_field : Map Value → String → String → Result (Unit {0})
  require_only_field parent field allowed_child = do
    child ← nested_map parent (field ∷ [])
    when_found child (only_fields ("spec.config." ++ field) (allowed_child ∷ []))

  unfoldable pub as_object : String → Value → Result (Map Value)
  as_object place v = elim (as_map v) [
    | none ↦ err (message ("MachineConfig " ++ place ++ " entry is not an object"))
    | some m ↦ ok m
  ]

  -- The identifier of an entry, which has to be there.
  given_name : String → String → Result (Option String) → Result String
  given_name place identifier (ok (some name)) =
      if name == ""
      then err (message ("MachineConfig " ++ place ++ " entry has no " ++ identifier))
      else ok name
  given_name place identifier _ =
      err (message ("MachineConfig " ++ place ++ " entry has no " ++ identifier))

  is_named : String → Result (Option String) → Bool
  is_named name (ok (some found)) = found == name
  is_named name _ = false

  -- `nodeDisruptionPolicyHasNamedEntry`
  unfoldable pub has_named_entry : List Value → String → String → Bool
  unfolding is_named
  has_named_entry [] identifier name = false
  has_named_entry (entry ∷ entries) identifier name =
      elim (as_map entry) [
        | none ↦ false
        | some m ↦ is_named name (nested_string m (identifier ∷ []))
      ]
      || has_named_entry entries identifier name

  in_policy : Option (List Value) → String → String → Bool
  unfolding has_named_entry
  in_policy none identifier name = false
  in_policy (some entries) identifier name = has_named_entry entries identifier name

  -- The loop over the entries of a section.
  unfoldable pub covers_entries :
      Option (List Value) → String → String → List Value → Result (Unit {0})
  unfolding as_object given_name in_policy
  covers_entries policy place identifier [] = ok tt
  covers_entries policy place identifier (entry ∷ entries) = do
    m ← as_object place entry
    name ← given_name place identifier (nested_string m (identifier ∷ []))
    guard (in_policy policy identifier name)
        (message ("node disruption policy does not cover MachineConfig " ++ place ++ " " ++ name))
    covers_entries policy place identifier entries

  covers_section : Map Value → String → String → Map Value → Result (Unit {0})
  covers_section policy entry_field identifier section = do
    only_fields "section" (entry_field ∷ []) section
    entries ← nested_slice section (entry_field ∷ [])
    when_found entries λ entries. do
      in_policy ←
          in_context ("read node disruption policy " ++ entry_field)
            (nested_slice policy (entry_field ∷ []))
      covers_entries in_policy entry_field identifier entries

  -- `nodeDisruptionPolicyCoversNamedEntries`
  unfoldable pub covers_named_entries :
      Map Value → Map Value → String → String → String → Result (Unit {0})
  unfolding covers_section
  covers_named_entries policy config config_section entry_field identifier = do
    section ← nested_map config (config_section ∷ [])
    when_found section (covers_section policy entry_field identifier)

  is_nonempty : Option (List String) → Bool
  is_nonempty none = false
  is_nonempty (some []) = false
  is_nonempty (some (key ∷ keys)) = true

  -- The loop over the users: whether one of them has keys.
  unfoldable pub uses_ssh_keys : List Value → Result Bool
  unfolding as_object is_nonempty
  uses_ssh_keys [] = ok false
  uses_ssh_keys (user ∷ users) = do
    m ← as_object "spec.config.passwd.users" user
    only_fields "spec.config.passwd.users" ("name" ∷ "sshAuthorizedKeys" ∷ []) m
    keys ← nested_string_slice m ("sshAuthorizedKeys" ∷ [])
    rest ← uses_ssh_keys users
    ok (is_nonempty keys || rest)

  abbrev no_ssh_keys : Error
  no_ssh_keys = message "node disruption policy does not cover MachineConfig SSH keys"

  require_actions : Result (Option (List Value)) → Result (Unit {0})
  require_actions (ok (some actions)) = ok tt
  require_actions _ = err no_ssh_keys

  require_key : Result (Option (Map Value)) → Result (Unit {0})
  unfolding require_actions
  require_key (ok (some ssh_key)) = require_actions (nested_slice ssh_key ("actions" ∷ []))
  require_key _ = err no_ssh_keys

  pub covers_users : Map Value → List Value → Result (Unit {0})
  unfolding require_key
  covers_users policy users = do
    uses ← uses_ssh_keys users
    if uses then require_key (nested_map policy ("sshkey" ∷ [])) else ok tt

  covers_passwd : Map Value → Map Value → Result (Unit {0})
  unfolding covers_users
  covers_passwd policy passwd = do
    only_fields "spec.config.passwd" ("users" ∷ []) passwd
    users ← nested_slice passwd ("users" ∷ [])
    when_found users (covers_users policy)

  -- `nodeDisruptionPolicyCoversSSHKeys`
  unfoldable pub covers_ssh_keys : Map Value → Map Value → Result (Unit {0})
  unfolding covers_passwd
  covers_ssh_keys policy config = do
    passwd ← nested_map config ("passwd" ∷ [])
    when_found passwd (covers_passwd policy)

  covers_config : Map Value → Map Value → Result (Unit {0})
  covers_config policy config = do
    only_fields "spec.config" ("ignition" ∷ "storage" ∷ "systemd" ∷ "passwd" ∷ []) config
    require_only_field config "ignition" "version"
    covers_named_entries policy config "storage" "files" "path"
    covers_named_entries policy config "systemd" "units" "name"
    covers_ssh_keys policy config

  covers_spec : Map Value → Map Value → Result (Unit {0})
  unfolding covers_config
  covers_spec policy spec = do
    only_fields "spec" ("config" ∷ []) spec
    config ← nested_map spec ("config" ∷ [])
    when_found config (covers_config policy)

  -- `nodeDisruptionPolicyCoversMachineConfig`
  unfoldable pub covers_machine_config : Map Value → Obj → Result (Unit {0})
  unfolding covers_spec
  covers_machine_config policy machine_config = do
    spec ← nested_map (object machine_config) ("spec" ∷ [])
    when_found spec (covers_spec policy)
