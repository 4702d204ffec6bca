-- ===== src/Engine/Coalescing/Held.antt =====
-- What `coalesceMachineConfigUpdate` of machineconfig_coalescing.go leaves behind when it holds an update.
use mathlib.Core.Bool.{false≢true}
use virt_platform_autopilot.Prelude.{
  ℕ, String, ◌==◌, ◌≡◌, refl, sym, ap, ◌∙◌, Bool, true, false, ◌||◌, Bool-cases, inl, inr, List, [],
  ◌∷◌, map,
}
use virt_platform_autopilot.Prelude.Maps.{lookup}
use virt_platform_autopilot.Kube.{Kube, Result, ok, err, is_not_found, is_no_match, Stage}
use virt_platform_autopilot.Engine.World.{Effect}
use virt_platform_autopilot.Engine.Flow.{State, next, ◌>>=◌, pure, gets, emit}
use virt_platform_autopilot.Engine.Flow.Triple.{
  Triple, Triple-bind, Triple-any, Triple-given, Triple-weaken, Triple-pure, Triple-raise,
  Triple-gets,
}
use virt_platform_autopilot.Engine.Coalescing.Pools.{
  is_machine_config, coalescing_bypassed, copy_bypass_annotation, matching_pools,
}
use virt_platform_autopilot.Engine.Coalescing.Staging.{machine_config_stage}
use virt_platform_autopilot.Engine.Coalescing.{
  sort_names, any_releases, hold_update, decide, coalesce_update, hco_namespace,
}
use virt_platform_autopilot.Engine.Coalescing.Pools.Releases.{AnyReleases}
use virt_platform_autopilot.Engine.Coalescing.Passed.{any_releases-AnyReleases}
use virt_platform_autopilot.Engine.Coalescing.Refresh.{Records, staged_as, refresh_stage-Refreshed}

module _ (K : Kube) (has_recorder : Bool) (now : ℕ) (hco : Kube.Obj K) where
  open K use {Obj, id_of, print_stage}

  -- The mirror holds a stage of the name with this hash and these pools.
  pub record Recorded (name hash : String) (names : List String) (s : State K) : Type 0 where
    pub stage : Stage
    pub stored : Records K has_recorder now hco name stage s
    pub same_hash : stage.desired_hash ≡ hash
    pub same_pools : stage.matching_pools ≡ names

  emit-Recorded :
      (name hash : String) (names : List String) (x : Effect)
      → Triple (Recorded name hash names) (emit {K = K} x) (λ u. Recorded name hash names)
  emit-Recorded name hash names x = record {
    at = λ s p a e. record {
      stage = p.stage;
      stored = p.stored;
      same_hash = p.same_hash;
      same_pools = p.same_pools;
    };
  }

  machine_config_stage-Stored :
      (P : State K → Type 0) (name : String)
      → Triple P
          (machine_config_stage K (hco_namespace K has_recorder now hco) name)
          (λ stored s. lookup s.staging.entries name ≡ stored)
  unfolding machine_config_stage
  machine_config_stage-Stored P name = Triple-bind (Triple-any _) λ u. Triple-gets _ (λ s p. refl)

  hold_update-Recorded :
      (P : State K → Type 0) (name hash : String) (names : List String)
      → Triple P
          (hold_update K has_recorder now hco name hash names)
          (λ b. Recorded name hash names)
  unfolding hold_update
  hold_update-Recorded P name hash names =
      Triple-bind (machine_config_stage-Stored P name) λ stored.
        Triple-bind
          (Triple-weaken (refresh_stage-Refreshed K has_recorder now hco name hash names stored)
            (λ a s p. record {
              stage = staged_as K has_recorder now hco hash names stored;
              stored = p.1;
              same_hash = refl;
              same_pools = refl;
            }))
          λ stage.
            Triple-bind (emit-Recorded name hash names _)
              λ u. Triple-bind (emit-Recorded name hash names _) λ u. Triple-pure false (λ s p. p)

  abbrev marked : Obj → Obj → Obj
  marked desired live = copy_bypass_annotation K desired live

  -- Why an update waits, and where it is recorded: `c` is the cluster that the decision saw, `s` the
  -- state that it left.
  pub record Held (desired live : Obj) (hash : String) (c : Kube.Cluster K) (s : State K)
      : Type 0 where
    pub configures : is_machine_config K desired ≡ true
    pub required : coalescing_bypassed K (marked desired live) hco ≡ false
    pub pools : List Obj
    pub matched : matching_pools K (marked desired live ∷ live ∷ []) c ≡ ok pools
    pub waiting : ¬ AnyReleases K pools
    pub recorded :
        Recorded
          (id_of (marked desired live)).name
          hash
          (sort_names (map (λ p. (id_of p).name) pools))
          s

  -- What `decide` guarantees of the pools that it is given.
  record Waits (name hash : String) (r : Result (List Obj)) (s : State K) : Type 0 where
    pools : List Obj
    found : r ≡ ok pools
    waiting : ¬ AnyReleases K pools
    recorded : Recorded name hash (sort_names (map (λ p. (id_of p).name) pools)) s

  released :
      {P : State K → Type 0} {Q : State K → Type 0} → Triple P (pure true) (λ b s. b ≡ false → Q s)
  released = Triple-pure true (λ s p e. cc)

  none_releases :
      (pools : List Obj) → any_releases K has_recorder now hco pools ≡ false → ¬ AnyReleases K pools
  none_releases pools h x =
      false≢true (sym h ∙ (any_releases-AnyReleases K has_recorder now hco pools).1 x)

  decide-Waits :
      (P : State K → Type 0) (name hash : String) (r : Result (List Obj))
      → Triple P
          (decide K has_recorder now hco name hash r)
          (λ b s. b ≡ false → Waits name hash r s)
  unfolding decide
  decide-Waits P name hash (err e) = elim (Bool-cases (is_not_found e || is_no_match e)) [
    | inl p ↦ rw p released
    | inr p ↦ rw p (Triple-raise e)
  ]
  decide-Waits P name hash (ok []) = Triple-bind (Triple-any _) λ u. released
  decide-Waits P name hash (ok (pool ∷ pools)) =
      elim (Bool-cases (any_releases K has_recorder now hco (pool ∷ pools))) [
        | inl p ↦ rw p released
        | inr p ↦ rw p (
            Triple-weaken (hold_update-Recorded P name hash _) (λ b s h e. record {
              pools = pool ∷ pools;
              found = refl;
              waiting = none_releases (pool ∷ pools) p;
              recorded = h;
            }))
      ]

  decide-Held :
      (desired live : Obj) (hash : String) (c : Kube.Cluster K)
      → is_machine_config K desired ≡ true
      → coalescing_bypassed K (marked desired live) hco ≡ false
      → Triple
          (λ s. s.cluster ≡ c)
          (gets (λ s. matching_pools K (marked desired live ∷ live ∷ []) s.cluster)
            >>= decide K has_recorder now hco (id_of (marked desired live)).name hash)
          (λ b s. b ≡ false → Held desired live hash c s)
  decide-Held desired live hash c m q =
      Triple-bind
        (Triple-gets _ (λ s p. ap (λ x. matching_pools K (marked desired live ∷ live ∷ []) x) p))
        λ r.
          Triple-given (r ≡ matching_pools K (marked desired live ∷ live ∷ []) c) (λ s p. p)
            λ g. Triple-weaken (decide-Waits _ _ hash r) (λ b s h e.
              let w = h e in
              record {
                configures = m;
                required = q;
                pools = w.pools;
                matched = sym g ∙ w.found;
                waiting = w.waiting;
                recorded = w.recorded;
              })

  coalesce_update_triple :
      (desired live : Obj) (hash : String) (c : Kube.Cluster K)
      → Triple
          (λ s. s.cluster ≡ c)
          (coalesce_update K has_recorder now hco desired live hash)
          (λ b s. b ≡ false → Held desired live hash c s)
  unfolding coalesce_update
  coalesce_update_triple desired live hash c = elim (Bool-cases (is_machine_config K desired)) [
    | inr m ↦ rw m released
    | inl m ↦ elim (Bool-cases (hco_namespace K has_recorder now hco == "")) [
      | inl n ↦ rw (m, n) released
      | inr n ↦ elim (Bool-cases (coalescing_bypassed K (marked desired live) hco)) [
        | inl q ↦ rw (m, n, q) (Triple-bind (Triple-any _) λ u. released)
        | inr q ↦ rw (m, n, q) (decide-Held desired live hash c m q)
      ]
    ]
  ]

  -- An update is held only for a MachineConfig that neither bypass annotation lets through, when
  -- the pools of the desired or the live object could be read and none of them reports
  -- RenderDegraded or Updating as true in its last condition of that type; the mirror then holds
  -- it under its name, with its hash and the sorted names of the pools.
  pub coalesce_update-Held :
      (desired live : Obj) (hash : String) (s : State K)
      → (coalesce_update K has_recorder now hco desired live hash s).0 ≡ next false
      → Held desired live hash s.cluster
          (coalesce_update K has_recorder now hco desired live hash s).1
  coalesce_update-Held desired live hash s e =
      (coalesce_update_triple desired live hash s.cluster).at s refl false e refl
