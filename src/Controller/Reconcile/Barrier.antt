-- ===== src/Controller/Reconcile/Barrier.antt =====
-- What `Reconcile` of pkg/controller/platform_controller.go has established when it turns to the retired
-- MachineConfigs.
use virt_platform_autopilot.Prelude.{
  ◌≡◌, ◌≢◌, ◌⊎◌, refl, ap, ◌∙◌, inl, inr, Bool, true, false, List,
}
use virt_platform_autopilot.Kube.{Kube, Error, Result, ok, err}
use virt_platform_autopilot.Kube.Results.{in_context, in_context-eq-ok}
use virt_platform_autopilot.Assets.Conditions.{Values}
use virt_platform_autopilot.Engine.Tombstone.{TombstoneMetadata}
use virt_platform_autopilot.Engine.Tombstone.Policies.{tombstones_have_effective_policy}
use virt_platform_autopilot.Engine.Tombstone.Policies.Released.{
  NothingInEffect, tombstones_have_effective_policy_sound,
}
use virt_platform_autopilot.Engine.NodeDisruption.Reconcile.{generation_observed}
use virt_platform_autopilot.Controller.Steps.{Setup, Platform, ◌>>=◌, continue}
use virt_platform_autopilot.Controller.Steps.Runs.{bind_ok, bind_changed}
use virt_platform_autopilot.Controller.Assets.{reconcile_dependency_metrics, reconcile_all}
use virt_platform_autopilot.Controller.Reconcile.{
  Verdict, proceed, defer, still, check_still, check_observed, verdict, follow, release,
  check_actions, before_release, reconcile_platform,
}

module _ (K : Kube) (V : Values) (setup : Setup K V) where
  open K use {Obj, Cluster, Facts}

  -- The policy is the autopilot's, its generation was observed, and it acts on no retired
  -- MachineConfig.
  pub record Cleared (managed : Bool) (cluster : Cluster) : Type 0 where
    pub is_managed : managed ≡ true
    pub is_observed : generation_observed K cluster ≡ ok true
    pub tombstones : List TombstoneMetadata
    pub loaded : setup.tombstones ≡ ok tombstones
    pub nothing_in_effect : NothingInEffect K tombstones cluster

  still_proceed : (b : Bool) → still K V setup b ≡ proceed → b ≡ false
  still_proceed true h = cc
  still_proceed false h = refl

  -- The last check, on what the cluster says.
  effective_cleared :
      (cluster : Cluster) (r : Result Bool)
      → tombstones_have_effective_policy K setup.tombstones cluster ≡ r
      → (elim (in_context
          "check MachineConfig tombstone node disruption policy actions after MCO observation" r) [
            | err e ↦ err e
            | ok effective ↦ ok (still K V setup effective)
          ])
        ≡ ok proceed
      → tombstones_have_effective_policy K setup.tombstones cluster ≡ ok false
  effective_cleared cluster (ok true) e h = cc
  effective_cleared cluster (ok false) e h = e
  effective_cleared cluster (err x) e h = cc

  check_still_cleared :
      (b : Bool) (cluster : Cluster)
      → check_still K V setup b cluster ≡ ok proceed
      → (b ≡ true) × (tombstones_have_effective_policy K setup.tombstones cluster ≡ ok false)
  unfolding check_still
  check_still_cleared false cluster h = cc
  check_still_cleared true cluster h = (refl, effective_cleared cluster _ refl h)

  observed_cleared :
      (cluster : Cluster) (r : Result Bool)
      → generation_observed K cluster ≡ r
      → (elim (in_context "observe node disruption policy before MachineConfig tombstones" r) [
        | err e ↦ err e
        | ok observed ↦ check_still K V setup observed cluster
      ])
        ≡ ok proceed
      → (generation_observed K cluster ≡ ok true)
        × (tombstones_have_effective_policy K setup.tombstones cluster ≡ ok false)
  observed_cleared cluster (ok b) e h =
      let (t, p) = check_still_cleared b cluster h in (e ∙ ap ok t, p)
  observed_cleared cluster (err x) e h = cc

  check_observed-Cleared :
      (managed : Bool) (cluster : Cluster)
      → check_observed K V setup managed cluster ≡ ok proceed
      → Cleared managed cluster
  unfolding check_observed
  check_observed-Cleared false cluster h = cc
  check_observed-Cleared true cluster h =
      let (o, p) = observed_cleared cluster _ refl h in
      let (ts, l, n) = tombstones_have_effective_policy_sound K setup.tombstones cluster p in
      record {
        is_managed = refl;
        is_observed = o;
        tombstones = ts;
        loaded = l;
        nothing_in_effect = n;
      }

  pub verdict-Cleared :
      (action managed : Bool) (cluster : Cluster)
      → verdict K V setup action managed cluster ≡ ok proceed
      → (action ≡ false) ⊎ Cleared managed cluster
  unfolding verdict
  verdict-Cleared false managed cluster h = inl refl
  verdict-Cleared true managed cluster h = inr (check_observed-Cleared managed cluster h)

  -- A change at the end of the call comes after a verdict.
  followed :
      (metric_errors : List Error) (r : Result Verdict) (s : Platform K)
      → (continue r (follow K V setup metric_errors) s).1 ≢ s
      → r ≡ ok proceed
  unfolding follow
  followed metric_errors (ok proceed) s h = refl
  followed metric_errors (ok (defer outcome)) s h = absurd (h refl)
  followed metric_errors (err e) s h = absurd (h refl)

  pub release-Cleared :
      (metric_errors : List Error) (action managed : Bool) (s : Platform K)
      → (release K V setup metric_errors action managed s).1 ≢ s
      → (action ≡ false) ⊎ Cleared managed s.engine.cluster
  unfolding release ◌>>=◌
  release-Cleared metric_errors action managed s h =
      verdict-Cleared action managed s.engine.cluster (followed metric_errors _ s h)

  -- The retired MachineConfigs are cleared by the check before the assets, or by the barrier after
  -- them.
  abbrev pub Released : Obj → Facts → Platform K → Type 0
  Released hco facts s =
      ((tombstones : List TombstoneMetadata) × (setup.tombstones ≡ ok tombstones)
        × NothingInEffect K tombstones
            (reconcile_dependency_metrics K V setup hco facts s).1.engine.cluster)
      ⊎ ((metric_errors : List Error) × (action : Bool) × ((before_release K V setup hco facts s).0
            ≡ ok (metric_errors, action, true))
          × Cleared true (before_release K V setup hco facts s).1.engine.cluster)

  checked_false :
      (hco : Obj) (facts : Facts) (s : Platform K) (metric_errors : List Error) (managed : Bool)
      → (before_release K V setup hco facts s).0 ≡ ok (metric_errors, false, managed)
      → tombstones_have_effective_policy K setup.tombstones
          (reconcile_dependency_metrics K V setup hco facts s).1.engine.cluster
        ≡ ok false
  unfolding before_release check_actions
  checked_false hco facts s metric_errors managed h =
      let (es, e, h1) = bind_ok (reconcile_dependency_metrics K V setup hco facts) _ s _ h in
      let (action, c, h2) = bind_ok (check_actions K V setup) _ _ _ h1 in
      let (m, d, h3) = bind_ok (reconcile_all K V setup hco facts action) _ _ _ h2 in
      let same : action ≡ false = cc (h3) in in_context-eq-ok _ _ c ∙ ap ok same

  -- From the render context on, Reconcile changes something beyond the metrics and the assets
  -- only where the retired MachineConfigs are released. Either the check before the assets found
  -- the tombstones and no policy in effect that acts on one of them. Or the assets left the
  -- policy managed, and on the cluster that they left, the policy's generation was observed and
  -- the policy in effect acts on no retired MachineConfig of the autopilot.
  pub reconcile_platform-Released :
      (hco : Obj) (facts : Facts) (s : Platform K)
      → (reconcile_platform K V setup hco facts s).1 ≢ (before_release K V setup hco facts s).1
      → Released hco facts s
  unfolding reconcile_platform
  reconcile_platform-Released hco facts s h =
      let ((metric_errors, action, managed), e, h1) =
        bind_changed (before_release K V setup hco facts) _ s h in
      answer metric_errors action managed e (release-Cleared metric_errors action managed _ h1)
    where
      answer :
          (metric_errors : List Error) (action managed : Bool)
          → (before_release K V setup hco facts s).0 ≡ ok (metric_errors, action, managed)
          → (action ≡ false)
            ⊎ Cleared managed (before_release K V setup hco facts s).1.engine.cluster
          → Released hco facts s
      answer metric_errors true managed e (inl f) = cc
      answer metric_errors false managed e (inl f) = inl (
          tombstones_have_effective_policy_sound K setup.tombstones _
            (checked_false hco facts s metric_errors managed e))
      answer metric_errors action managed e (inr c) = inr (
        metric_errors,
        action,
        e ∙ ap (λ b. ok (metric_errors, action, b)) c.is_managed,
        record {
          is_managed = refl;
          is_observed = c.is_observed;
          tombstones = c.tombstones;
          loaded = c.loaded;
          nothing_in_effect = c.nothing_in_effect;
        },
      )
