-- ===== src/Engine/Coalescing/Passed.antt =====
-- When `coalesceMachineConfigUpdate` of machineconfig_coalescing.go lets an update pass.
use mathlib.Core.Path.{subst}
use virt_platform_autopilot.Prelude.{
  ℕ, String, ◌==◌, eq_iff, ◌≡◌, ◌↔◌, refl, ap, Bool, true, false, ◌||◌, Bool-cases, inl, inr, List,
  [], ◌∷◌,
}
use virt_platform_autopilot.Kube.{Kube, Error, Result, ok, err, is_not_found, is_no_match}
use virt_platform_autopilot.Engine.Flow.{State, next, ◌>>=◌, gets}
use virt_platform_autopilot.Engine.Flow.Triple.{
  Triple, Triple-bind, Triple-any, Triple-given, Triple-weaken, Triple-pure, Triple-raise,
  Triple-gets,
}
use virt_platform_autopilot.Engine.Coalescing.Pools.{
  is_machine_config, coalescing_bypassed, copy_bypass_annotation, matching_pools,
}
use virt_platform_autopilot.Engine.Coalescing.Pools.Releases.{AnyReleases}
use virt_platform_autopilot.Engine.Coalescing.Pools.Reported.{
  releases_staged_update-Releases, either, or_true,
}
use virt_platform_autopilot.Engine.Coalescing.{
  any_releases, hold_update, decide, coalesce_update, hco_namespace,
}

module _ (K : Kube) (has_recorder : Bool) (now : ℕ) (hco : Kube.Obj K) where
  open K use {Obj, id_of}

  pub any_releases-AnyReleases :
      (pools : List Obj) → (any_releases K has_recorder now hco pools ≡ true) ↔ AnyReleases K pools
  unfolding any_releases
  any_releases-AnyReleases [] = ((λ h. cc), λ x. absurd x)
  any_releases-AnyReleases (pool ∷ pools) =
      let ih = any_releases-AnyReleases pools in
      let one = releases_staged_update-Releases K pool in
      (
        (λ h. elim (either _ _ h) [ inl p ↦ inl (one.0 p) | inr p ↦ inr (ih.0 p) ]),
        λ x. elim x [ inl p ↦ rw (one.1 p) refl | inr p ↦ or_true _ (ih.1 p) ],
      )

  -- What the read of the pools has to give for an update to pass.
  pub data PoolsAllow (r : Result (List Obj)) : Type 0 where
    no_pool_kind : (e : Error) → r ≡ err e → (is_not_found e || is_no_match e) ≡ true → PoolsAllow r
    no_pools : r ≡ ok [] → PoolsAllow r
    released : (pools : List Obj) → r ≡ ok pools → AnyReleases K pools → PoolsAllow r

  -- Why an update passes, on the cluster that the decision saw.
  pub data Passed (desired live : Obj) (c : Kube.Cluster K) : Type 0 where
    other_kind : is_machine_config K desired ≡ false → Passed desired live c
    no_namespace : (id_of hco).namespace ≡ "" → Passed desired live c
    bypassed :
        coalescing_bypassed K (copy_bypass_annotation K desired live) hco ≡ true
        → Passed desired live c
    pools_allow :
        PoolsAllow (matching_pools K (copy_bypass_annotation K desired live ∷ live ∷ []) c)
        → Passed desired live c

  hold_update_waits :
      (P : State K → Type 0) (name hash : String) (names : List String)
      → Triple P (hold_update K has_recorder now hco name hash names) (λ b s. b ≡ false)
  unfolding hold_update
  hold_update_waits P name hash names = Triple-bind (Triple-any _) λ a.
      Triple-bind (Triple-any _) λ b.
        Triple-bind (Triple-any _)
          λ c. Triple-bind (Triple-any _) λ d. Triple-pure false (λ s p. refl)

  decide-PoolsAllow :
      (P : State K → Type 0) (name hash : String) (r : Result (List Obj))
      → Triple P (decide K has_recorder now hco name hash r) (λ b s. b ≡ true → PoolsAllow r)
  unfolding decide
  decide-PoolsAllow P name hash (err e) = elim (Bool-cases (is_not_found e || is_no_match e)) [
    | inl p ↦ rw p (Triple-pure true (λ s q h. no_pool_kind e refl p))
    | inr p ↦ rw p (Triple-raise e)
  ]
  decide-PoolsAllow P name hash (ok []) =
      Triple-bind (Triple-any _) λ u. Triple-pure true (λ s q h. no_pools refl)
  decide-PoolsAllow P name hash (ok (pool ∷ pools)) =
      elim (Bool-cases (any_releases K has_recorder now hco (pool ∷ pools))) [
        | inl p ↦ rw p (
            Triple-pure true (λ s q h.
              released (pool ∷ pools) refl ((any_releases-AnyReleases (pool ∷ pools)).0 p)))
        | inr p ↦ rw p (Triple-weaken (hold_update_waits P name hash _) (λ b s w h. cc))
      ]

  coalesce_update_allows :
      (desired live : Obj) (hash : String) (c : Kube.Cluster K)
      → Triple
          (λ s. s.cluster ≡ c)
          (coalesce_update K has_recorder now hco desired live hash)
          (λ b s. b ≡ true → Passed desired live c)
  unfolding coalesce_update
  coalesce_update_allows desired live hash c = elim (Bool-cases (is_machine_config K desired)) [
    | inr m ↦ rw m (Triple-pure true (λ s p h. other_kind m))
    | inl m ↦ elim (Bool-cases (hco_namespace K has_recorder now hco == "")) [
      | inl n ↦
          rw (m, n)
            (Triple-pure true (λ s p h. no_namespace ((eq_iff (id_of hco).namespace "").0 n)))
      | inr n ↦
          elim (Bool-cases (coalescing_bypassed K (copy_bypass_annotation K desired live) hco)) [
            | inl q ↦
                rw (m, n, q)
                  (Triple-bind (Triple-any _) λ u. Triple-pure true (λ s p h. bypassed q))
            | inr q ↦ rw (m, n, q) (by_pools desired live hash c)
          ]
    ]
  ]
    where
      by_pools :
          (desired live : Obj) (hash : String) (c : Kube.Cluster K)
          → Triple
              (λ s. s.cluster ≡ c)
              (gets (λ s.
                  matching_pools K (copy_bypass_annotation K desired live ∷ live ∷ []) s.cluster)
                >>= decide K has_recorder now hco
                    (id_of (copy_bypass_annotation K desired live)).name
                    hash)
              (λ b s. b ≡ true → Passed desired live c)
      by_pools desired live hash c =
          let read = λ (x : Kube.Cluster K).
            matching_pools K (copy_bypass_annotation K desired live ∷ live ∷ []) x in
          Triple-bind (Triple-gets _ (λ s p. ap read p)) λ r.
            Triple-given (r ≡ read c) (λ s p. p)
              λ g.
                Triple-weaken (decide-PoolsAllow _ _ hash r)
                  (λ b s h e. pools_allow (subst PoolsAllow g (h e)))

  -- An update passes only if it is not of a MachineConfig, or the HCO has no namespace, or a
  -- bypass is in effect, or the read of the pools said that there is no such resource, or it gave
  -- no pools, or one of the pools reports RenderDegraded or Updating as true in its last
  -- condition of that type.
  pub coalesce_update-Passed :
      (desired live : Obj) (hash : String) (s : State K)
      → (coalesce_update K has_recorder now hco desired live hash s).0 ≡ next true
      → Passed desired live s.cluster
  coalesce_update-Passed desired live hash s e =
      (coalesce_update_allows desired live hash s.cluster).at s refl true e refl
