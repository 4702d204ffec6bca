-- ===== src/Engine/NodeDisruption/Coverage/Users.antt =====
-- The users of a MachineConfig that passes the check of node_disruption_policy.go.
use virt_platform_autopilot.Prelude.{
  String, ◌≡◌, ◌⊎◌, inl, inr, refl, ap, ◌∙◌, ◌||◌, Bool, true, false, Option, none, some, List, [],
  ◌∷◌, if◌then◌else◌,
}
use virt_platform_autopilot.Prelude.Maps.{Map}
use virt_platform_autopilot.Kube.{Kube, Result, ok, err}
use virt_platform_autopilot.Kube.Results.{>>=-eq-ok}
use virt_platform_autopilot.Engine.NodeDisruption.Coverage.{
  only_fields, uses_ssh_keys, is_nonempty, require_actions, require_key, covers_users, as_object,
}
use virt_platform_autopilot.Engine.NodeDisruption.Coverage.Covered.{
  Only, only_fields-Only, as_object_eq,
}

module _ (K : Kube) where
  open K use {
    Obj, Value, object, as_map, nested_map, nested_slice, nested_string, nested_string_slice,
  }

  -- A user has a name and keys, and nothing else.
  pub record IsUser (v : Value) : Type 0 where
    pub user : Map Value
    pub is_user : as_map v ≡ some user
    pub only_keys : Only K ("name" ∷ "sshAuthorizedKeys" ∷ []) user
    pub keys : Option (List String)
    pub has_keys : nested_string_slice user ("sshAuthorizedKeys" ∷ []) ≡ ok keys

  -- A user without SSH keys.
  abbrev pub WithoutKeys : Option (Map Value) → Type 0
  WithoutKeys none = ⊥
  WithoutKeys (some user) =
      (nested_string_slice user ("sshAuthorizedKeys" ∷ []) ≡ ok none)
      ⊎ (nested_string_slice user ("sshAuthorizedKeys" ∷ []) ≡ ok (some []))

  abbrev pub NoKeys : List Value → Type 0
  NoKeys [] = Unit
  NoKeys (v ∷ vs) = WithoutKeys (as_map v) × NoKeys vs

  abbrev pub AllUsers : List Value → Type 0
  AllUsers [] = Unit
  AllUsers (v ∷ vs) = IsUser v × AllUsers vs

  -- The policy has actions for SSH keys.
  pub record KeyActions (policy : Map Value) : Type 0 where
    pub ssh_key : Map Value
    pub has_key : nested_map policy ("sshkey" ∷ []) ≡ ok (some ssh_key)
    pub actions : List Value
    pub has_actions : nested_slice ssh_key ("actions" ∷ []) ≡ ok (some actions)

  abbrev pub UsersCovered : Map Value → List Value → Type 0
  UsersCovered policy users = AllUsers users × (NoKeys users ⊎ KeyActions policy)

  require_actions_lem :
      (r : Result (Option (List Value)))
      → require_actions K r ≡ ok tt
      → (actions : List Value) × (r ≡ ok (some actions))
  unfolding require_actions
  require_actions_lem (ok (some actions)) h = (actions, refl)
  require_actions_lem (ok none) h = cc
  require_actions_lem (err e) h = cc

  require_key-KeyActions :
      (policy : Map Value) (r : Result (Option (Map Value)))
      → nested_map policy ("sshkey" ∷ []) ≡ r
      → require_key K r ≡ ok tt
      → KeyActions policy
  unfolding require_key
  require_key-KeyActions policy (ok (some key)) e h =
      let (actions, f) = require_actions_lem _ h in
      record { ssh_key = key; has_key = e; actions = actions; has_actions = f }
  require_key-KeyActions policy (ok none) e h = cc
  require_key-KeyActions policy (err x) e h = cc

  all_users : (vs : List Value) (b : Bool) → uses_ssh_keys K vs ≡ ok b → AllUsers vs
  unfolding uses_ssh_keys
  all_users [] b h = tt
  all_users (v ∷ vs) b h =
      let (m, e, h1) = >>=-eq-ok (as_object K "spec.config.passwd.users" v) _ h in
      let (u, o, h2) =
        >>=-eq-ok (only_fields K "spec.config.passwd.users" ("name" ∷ "sshAuthorizedKeys" ∷ []) m) _
          h1 in
      let (keys, k, h3) = >>=-eq-ok (nested_string_slice m ("sshAuthorizedKeys" ∷ [])) _ h2 in
      let (rest, r, h4) = >>=-eq-ok (uses_ssh_keys K vs) _ h3 in
      (
        record {
          user = m;
          is_user = as_object_eq K "spec.config.passwd.users" v m e;
          only_keys = only_fields-Only K "spec.config.passwd.users" _ m o;
          keys = keys;
          has_keys = k;
        },
        all_users vs rest r,
      )

  without_keys :
      (v : Value) (user : Map Value) (keys : Option (List String))
      → as_map v ≡ some user
      → nested_string_slice user ("sshAuthorizedKeys" ∷ []) ≡ ok keys
      → is_nonempty K keys ≡ false
      → WithoutKeys (as_map v)
  unfolding is_nonempty
  without_keys v user none e k h = rw e (inl k)
  without_keys v user (some []) e k h = rw e (inr k)
  without_keys v user (some (key ∷ keys)) e k h = cc

  neither : (a b : Bool) → ok (a || b) ≡ ok false → (a ≡ false) × (b ≡ false)
  neither false false h = (refl, refl)
  neither false true h = cc
  neither true b h = cc

  uses_ssh_keys-NoKeys : (vs : List Value) → uses_ssh_keys K vs ≡ ok false → NoKeys vs
  unfolding uses_ssh_keys
  uses_ssh_keys-NoKeys [] h = tt
  uses_ssh_keys-NoKeys (v ∷ vs) h =
      let (m, e, h1) = >>=-eq-ok (as_object K "spec.config.passwd.users" v) _ h in
      let (u, o, h2) =
        >>=-eq-ok (only_fields K "spec.config.passwd.users" ("name" ∷ "sshAuthorizedKeys" ∷ []) m) _
          h1 in
      let (keys, k, h3) = >>=-eq-ok (nested_string_slice m ("sshAuthorizedKeys" ∷ [])) _ h2 in
      let (rest, r, h4) = >>=-eq-ok (uses_ssh_keys K vs) _ h3 in
      let (a, b) = neither (is_nonempty K keys) rest h4 in
      (
        without_keys v m keys (as_object_eq K "spec.config.passwd.users" v m e) k a,
        uses_ssh_keys-NoKeys vs (r ∙ ap ok b),
      )

  pub users_covered :
      (policy : Map Value) (users : List Value)
      → covers_users K policy users ≡ ok tt
      → UsersCovered policy users
  unfolding covers_users
  users_covered policy users h = covered_if (>>=-eq-ok (uses_ssh_keys K users) _ h)
    where
      covered_if :
          (b : Bool) × (uses_ssh_keys K users ≡ ok b)
            × ((if b then require_key K (nested_map policy ("sshkey" ∷ [])) else ok tt) ≡ ok tt)
          → UsersCovered policy users
      covered_if (true, e, q) =
          (all_users users true e, inr (require_key-KeyActions policy _ refl q))
      covered_if (false, e, q) = (all_users users false e, inl (uses_ssh_keys-NoKeys users e))
