-- ===== src/Engine/NodeDisruption/Effective/Ready.antt =====
-- What it takes for `prepareNodeDisruptionPolicyDependentMachineConfig` of node_disruption_policy.go to let a
-- MachineConfig through.
use Prim.Native.String.{◌++◌}
use virt_platform_autopilot.Prelude.{
  String, ◌≡◌, ◌&&◌, eq_iff, Bool, false, refl, sym, ap, ◌∙◌, inl, inr, true, ◌||◌, Bool-cases,
  Option, none, some, [], ◌∷◌,
}
use virt_platform_autopilot.Prelude.Maps.{Map}
use virt_platform_autopilot.Kube.{Kube, ObjectId, Result, ok, err, is_not_found, is_no_match}
use virt_platform_autopilot.Kube.Results.{
  in_context, >>=-eq-ok, guard_then, in_context-eq-ok, IfPresent,
}
use virt_platform_autopilot.Engine.Coalescing.Pools.{
  is_machine_config, machine_config_group, machine_config_kind,
}
use virt_platform_autopilot.Engine.NodeDisruption.Coverage.{covers_machine_config}
use virt_platform_autopilot.Engine.NodeDisruption.Coverage.Sound.{
  SpecCovered, covers_machine_config_sound,
}
use virt_platform_autopilot.Engine.NodeDisruption.Matching.Agrees.{Agrees, entries_match-Agrees}
use virt_platform_autopilot.Engine.NodeDisruption.Effective.{
  machine_configuration_id, is_machine_configuration, required, policy_of, render_policy,
  match_status, read_status, policy_effective, or_nil, policy_ready,
}

-- The identity of the MachineConfiguration singleton, without its namespace.
abbrev pub NamesPolicy : ObjectId → Type 0
NamesPolicy id =
    (id.group ≡ machine_configuration_id.group)
    × (id.version ≡ machine_configuration_id.version)
    × (id.kind ≡ machine_configuration_id.kind)
    × (id.name ≡ machine_configuration_id.name)

both : (a b : Bool) → (a && b) ≡ true → (a ≡ true) × (b ≡ true)
both true b h = (refl, h)
both false b h = cc

named_policy : (id : ObjectId) → is_machine_configuration id ≡ true → NamesPolicy id
named_policy id h =
    let (abc, d) = both _ _ h in
    let (ab, c) = both _ _ abc in
    let (a, b) = both _ _ ab in
    ((eq_iff _ _).0 a, (eq_iff _ _).0 b, (eq_iff _ _).0 c, (eq_iff _ _).0 d)

module _ (K : Kube) where
  open K use {Obj, Value, Cluster, Facts, id_of, object, nested_map, get, render}

  -- The policy that the asset renders to.
  pub record Rendered (hco : Obj) (facts : Facts) (policy_asset : Option String) (cluster : Cluster)
      (want : Map Value) : Type 0 where
    pub name : String
    pub is_resolved : policy_asset ≡ some name
    pub policy : Obj
    pub renders : render name hco facts cluster ≡ ok (some policy)
    pub is_policy : NamesPolicy (id_of policy)
    pub has_policy :
        nested_map (object policy) ("spec" ∷ "nodeDisruptionPolicy" ∷ []) ≡ ok (some want)

  -- The live MachineConfiguration reports a policy with all that is wanted.
  pub record InEffect (cluster : Cluster) (want : Map Value) : Type 0 where
    pub live : Obj
    pub is_live : get machine_configuration_id cluster ≡ ok live
    pub status : Map Value
    pub has_status :
        nested_map (object live) ("status" ∷ "nodeDisruptionPolicyStatus" ∷ "clusterPolicies" ∷ [])
        ≡ ok (some status)
    pub agrees : Agrees K status want

  pub record Ready (hco : Obj) (facts : Facts) (policy_asset : Option String) (desired : Obj)
      (cluster : Cluster) : Type 0 where
    pub is_config :
        ((id_of desired).group ≡ machine_config_group)
        × ((id_of desired).kind ≡ machine_config_kind)
    pub want : Map Value
    pub rendered : Rendered hco facts policy_asset cluster want
    pub covered : IfPresent (nested_map (object desired) ("spec" ∷ [])) (SpecCovered K want)
    pub in_effect : InEffect cluster want

  configures :
      (desired : Obj)
      → is_machine_config K desired ≡ true
      → ((id_of desired).group ≡ machine_config_group)
        × ((id_of desired).kind ≡ machine_config_kind)
  unfolding is_machine_config
  configures desired h = let (a, b) = both _ _ h in ((eq_iff _ _).0 b, (eq_iff _ _).0 a)

  required_eq :
      (name : String) (o : Option (Map Value)) (w : Option (Map Value))
      → required K name o ≡ ok w
      → o ≡ w
  unfolding required
  required_eq name none w h = cc
  required_eq name (some m) w h = cc

  policy_of-Rendered :
      (hco : Obj) (facts : Facts) (cluster : Cluster) (name : String) (o : Option Obj)
      (want : Map Value)
      → render name hco facts cluster ≡ ok o
      → policy_of K name o ≡ ok (some want)
      → Rendered hco facts (some name) cluster want
  unfolding policy_of
  policy_of-Rendered hco facts cluster name none want e h = cc
  policy_of-Rendered hco facts cluster name (some policy) want e h =
      let (p, h1) = guard_then (is_machine_configuration (id_of policy)) _ _ h in
      let (w, f, g) =
        >>=-eq-ok (in_context ("read node disruption policy asset " ++ name) _) _ h1 in
      record {
        name = name;
        is_resolved = refl;
        policy = policy;
        renders = e;
        is_policy = named_policy (id_of policy) p;
        has_policy = in_context-eq-ok _ _ f ∙ ap ok (required_eq name w _ g);
      }

  render_policy-Rendered :
      (hco : Obj) (facts : Facts) (policy_asset : Option String) (cluster : Cluster)
      (want : Map Value)
      → render_policy K hco facts policy_asset cluster ≡ ok (some want)
      → Rendered hco facts policy_asset cluster want
  unfolding render_policy
  render_policy-Rendered hco facts none cluster want h = cc
  render_policy-Rendered hco facts (some name) cluster want h =
      let (o, e, f) =
        >>=-eq-ok (in_context ("render node disruption policy asset " ++ name) _) _ h in
      policy_of-Rendered hco facts cluster name o want (in_context-eq-ok _ _ e) f

  match_status-InEffect :
      (cluster : Cluster) (want : Map Value) (live : Obj) (o : Option (Map Value))
      → get machine_configuration_id cluster ≡ ok live
      → nested_map (object live) ("status" ∷ "nodeDisruptionPolicyStatus" ∷ "clusterPolicies" ∷ [])
        ≡ ok o
      → match_status K want o ≡ ok true
      → InEffect cluster want
  unfolding match_status
  match_status-InEffect cluster want live none e f h = cc
  match_status-InEffect cluster want live (some status) e f h = record {
    live = live;
    is_live = e;
    status = status;
    has_status = f;
    agrees = entries_match-Agrees K status want h;
  }

  read_status-InEffect :
      (cluster : Cluster) (want : Map Value) (r : Result Obj)
      → get machine_configuration_id cluster ≡ r
      → read_status K want r ≡ ok true
      → InEffect cluster want
  unfolding read_status
  read_status-InEffect cluster want (err x) e h =
      elim (Bool-cases (is_not_found x || is_no_match x)) [
        | inl g ↦ cc (rw g at h)
        | inr g ↦ cc (rw g at h)
      ]
  read_status-InEffect cluster want (ok live) e h =
      let (o, f, g) =
        >>=-eq-ok
          (nested_map (object live)
            ("status" ∷ "nodeDisruptionPolicyStatus" ∷ "clusterPolicies" ∷ []))
          _ h in
      match_status-InEffect cluster want live o e f g

  policy_effective-InEffect :
      (want : Option (Map Value)) (cluster : Cluster)
      → policy_effective K want cluster ≡ ok true
      → (w : Map Value) × (want ≡ some w) × InEffect cluster w
  unfolding policy_effective
  policy_effective-InEffect none cluster h = cc
  policy_effective-InEffect (some w) cluster h = (w, refl, read_status-InEffect cluster w _ refl h)

  -- When the readiness check lets a MachineConfig through, the policy asset rendered a policy of
  -- the MachineConfiguration. The spec, where there is one, has only config, with only the
  -- Ignition version, files and units that the policy names, and users with a name and keys; the
  -- policy has actions for SSH keys unless no user has any. In the live status, the first entry
  -- with the path of a file of the policy, or with the name of a unit, has the same actions, and
  -- so has the SSH key entry where the policy has one.
  pub policy_ready-Ready :
      (hco : Obj) (facts : Facts) (policy_asset : Option String) (desired : Obj) (cluster : Cluster)
      → policy_ready K hco facts policy_asset desired cluster ≡ ok true
      → Ready hco facts policy_asset desired cluster
  unfolding policy_ready
  policy_ready-Ready hco facts policy_asset desired cluster h =
      let (c, h1) = guard_then (is_machine_config K desired) _ _ h in
      let (want, r, h2) = >>=-eq-ok (render_policy K hco facts policy_asset cluster) _ h1 in
      let (u, v, h3) = >>=-eq-ok (covers_machine_config K (or_nil K want) desired) _ h2 in
      let (w, e, f) = policy_effective-InEffect want cluster h3 in
      record {
        is_config = configures desired c;
        want = w;
        rendered = render_policy-Rendered hco facts policy_asset cluster w (r ∙ ap ok e);
        covered =
            covers_machine_config_sound K w desired
              (ap (λ o. covers_machine_config K (or_nil K o) desired) (sym e) ∙ v);
        in_effect = f;
      }
