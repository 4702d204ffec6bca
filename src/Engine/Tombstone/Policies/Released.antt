-- ===== src/Engine/Tombstone/Policies/Released.antt =====
-- When tombstone.go finds no node disruption policy actions in effect on a retired MachineConfig.
use virt_platform_autopilot.Prelude.{
  ◌≡◌, refl, inl, inr, true, false, ◌||◌, Bool-cases, Option, none, some, List, [], ◌∷◌,
}
use virt_platform_autopilot.Prelude.Maps.{Map}
use virt_platform_autopilot.Kube.{Kube, Error, Result, ok, err, is_not_found, is_no_match}
use virt_platform_autopilot.Kube.Results.{in_context, >>=-eq-ok, in_context-eq-ok}
use virt_platform_autopilot.Engine.NodeDisruption.Effective.{machine_configuration_id}
use virt_platform_autopilot.Engine.Tombstone.{
  TombstoneMetadata, is_machine_config_tombstone_metadata, is_owned,
}
use virt_platform_autopilot.Engine.Tombstone.Policies.{
  live_effective, tombstone_effective, any_tombstone_effective, status_effective, policy_read,
  tombstones_have_effective_policy,
}
use virt_platform_autopilot.Engine.Tombstone.Policies.Uncovered.{
  Outside, if_true, machine_config_effective-Outside,
}

module _ (K : Kube) where
  open K use {Obj, Value, Cluster, object, nested_map, get}

  -- A retired MachineConfig is gone, is not the autopilot's, or has nothing that the policy in effect
  -- names.
  pub data Released (effective : Map Value) (cluster : Cluster) (ts : TombstoneMetadata)
      : Type 0 where
    other_kind : is_machine_config_tombstone_metadata ts ≡ false → Released effective cluster ts
    gone :
        (e : Error)
        → get ts.id cluster ≡ err e
        → (is_not_found e || is_no_match e) ≡ true
        → Released effective cluster ts
    not_owned :
        (live : Obj)
        → get ts.id cluster ≡ ok live
        → is_owned K live ≡ false
        → Released effective cluster ts
    outside :
        (live : Obj)
        → get ts.id cluster ≡ ok live
        → Outside K live effective
        → Released effective cluster ts

  abbrev pub AllReleased : Map Value → Cluster → List TombstoneMetadata → Type 0
  AllReleased effective cluster [] = Unit
  AllReleased effective cluster (ts ∷ rest) =
      Released effective cluster ts × AllReleased effective cluster rest

  live_effective-Released :
      (effective : Map Value) (cluster : Cluster) (ts : TombstoneMetadata) (r : Result Obj)
      → get ts.id cluster ≡ r
      → live_effective K effective r ≡ ok false
      → Released effective cluster ts
  unfolding live_effective
  live_effective-Released effective cluster ts (err e) g h =
      elim (Bool-cases (is_not_found e || is_no_match e)) [
        | inl a ↦ gone e g a
        | inr a ↦ cc (rw a at h)
      ]
  live_effective-Released effective cluster ts (ok live) g h = elim (Bool-cases (is_owned K live)) [
    | inl a ↦
        outside live g
          (machine_config_effective-Outside K live effective (in_context-eq-ok _ _ (rw a at h)))
    | inr a ↦ not_owned live g a
  ]

  tombstone_effective-Released :
      (effective : Map Value) (cluster : Cluster) (ts : TombstoneMetadata)
      → tombstone_effective K effective cluster ts ≡ ok false
      → Released effective cluster ts
  unfolding tombstone_effective
  tombstone_effective-Released effective cluster ts h =
      elim (Bool-cases (is_machine_config_tombstone_metadata ts)) [
        | inl a ↦ live_effective-Released effective cluster ts _ refl (rw a at h)
        | inr a ↦ other_kind a
      ]

  any_tombstone_effective-AllReleased :
      (effective : Map Value) (cluster : Cluster) (tombstones : List TombstoneMetadata)
      → any_tombstone_effective K effective cluster tombstones ≡ ok false
      → AllReleased effective cluster tombstones
  unfolding any_tombstone_effective
  any_tombstone_effective-AllReleased effective cluster [] h = tt
  any_tombstone_effective-AllReleased effective cluster (ts ∷ rest) h =
      let (b, e, f) = >>=-eq-ok (tombstone_effective K effective cluster ts) _ h in
      let (n, r) = if_true K b _ f in
      (
        tombstone_effective-Released effective cluster ts (rw n at e),
        any_tombstone_effective-AllReleased effective cluster rest r,
      )

  -- There is no policy in effect, or every retired MachineConfig is out of its reach.
  pub data NothingInEffect (tombstones : List TombstoneMetadata) (cluster : Cluster) : Type 0 where
    no_policy :
        (e : Error)
        → get machine_configuration_id cluster ≡ err e
        → (is_not_found e || is_no_match e) ≡ true
        → NothingInEffect tombstones cluster
    no_status :
        (policy : Obj)
        → get machine_configuration_id cluster ≡ ok policy
        → nested_map
            (object policy)
            ("status" ∷ "nodeDisruptionPolicyStatus" ∷ "clusterPolicies" ∷ [])
          ≡ ok none
        → NothingInEffect tombstones cluster
    released :
        (policy : Obj)
        → get machine_configuration_id cluster ≡ ok policy
        → (effective : Map Value)
        → nested_map
            (object policy)
            ("status" ∷ "nodeDisruptionPolicyStatus" ∷ "clusterPolicies" ∷ [])
          ≡ ok (some effective)
        → AllReleased effective cluster tombstones
        → NothingInEffect tombstones cluster

  policy_read-NothingInEffect :
      (tombstones : List TombstoneMetadata) (cluster : Cluster) (r : Result Obj)
      → get machine_configuration_id cluster ≡ r
      → policy_read K tombstones cluster r ≡ ok false
      → NothingInEffect tombstones cluster
  unfolding policy_read status_effective
  policy_read-NothingInEffect tombstones cluster (err e) g h =
      elim (Bool-cases (is_not_found e || is_no_match e)) [
        | inl a ↦ no_policy e g a
        | inr a ↦ cc (rw a at h)
      ]
  policy_read-NothingInEffect tombstones cluster (ok policy) g h = status (
      >>=-eq-ok
        (nested_map (object policy)
          ("status" ∷ "nodeDisruptionPolicyStatus" ∷ "clusterPolicies" ∷ []))
        (status_effective K tombstones cluster) h)
    where
      status :
          (o : Option (Map Value)) × (nested_map
                (object policy)
                ("status" ∷ "nodeDisruptionPolicyStatus" ∷ "clusterPolicies" ∷ [])
              ≡ ok o)
            × (status_effective K tombstones cluster o ≡ ok false)
          → NothingInEffect tombstones cluster
      status (none, e, f) = no_status policy g e
      status (some effective, e, f) =
          released policy g effective e
            (any_tombstone_effective-AllReleased effective cluster tombstones f)

  -- When the tombstone check answers false without an error, the tombstones were loaded, and
  -- there is no MachineConfiguration, or it reports no policies, or every MachineConfig tombstone
  -- is gone, is not the autopilot's, or has no file and no unit whose path or name an entry of
  -- the reported policies carries.
  pub tombstones_have_effective_policy_sound :
      (loaded : Result (List TombstoneMetadata)) (cluster : Cluster)
      → tombstones_have_effective_policy K loaded cluster ≡ ok false
      → (tombstones : List TombstoneMetadata) × (loaded ≡ ok tombstones)
        × NothingInEffect tombstones cluster
  unfolding tombstones_have_effective_policy
  tombstones_have_effective_policy_sound loaded cluster h =
      let (tombstones, e, f) = >>=-eq-ok (in_context "failed to load tombstones" loaded) _ h in
      (tombstones, in_context-eq-ok _ _ e, policy_read-NothingInEffect tombstones cluster _ refl f)
