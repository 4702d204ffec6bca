-- ===== src/Engine/Patcher/Barrier.antt =====
-- What `ReconcileAsset` of pkg/engine/patcher.go has checked when it applies an asset with a node disruption
-- policy.
use mathlib.Core.Path.{subst}
use virt_platform_autopilot.Prelude.{◌<◌, ◌≡◌, refl, some, arith}
use virt_platform_autopilot.Kube.{Kube, Asset, Dependency, ok}
use virt_platform_autopilot.Engine.Flow.{State, Flow, next, stop, fail, Action, continue, ◌>>=◌}
use virt_platform_autopilot.Engine.Flow.Silent.{Same, Silent, applies}
use virt_platform_autopilot.Engine.NodeDisruption.Effective.Ready.{Ready, policy_ready-Ready}
use virt_platform_autopilot.Engine.Patcher.Prepare.{
  Context, render_asset, check_exclusion, check_policy,
}
use virt_platform_autopilot.Engine.Patcher.Prepare.Silent.{
  render_asset-Silent, check_exclusion-Silent, check_policy-Silent,
}
use virt_platform_autopilot.Engine.Patcher.Prepare.Passed.{
  render_passed, exclusion_passed, policy_passed,
}
use virt_platform_autopilot.Engine.Patcher.{reconcile_action, reconcile_asset}

module _ {K : Kube} {A B : Type 0} (f : A → Action K B) (s : State K) where
  pub continue_applied :
      (r : Flow A) (t : State K)
      → Same s t
      → applies s.trace < applies (continue r f t).1.trace
      → (a : A) × (r ≡ next a) × (applies s.trace < applies (f a t).1.trace)
  continue_applied (next a) t q h = (a, refl, h)
  continue_applied (stop b) t q h = absurd (omega (arith, h, q.same_applies))
  continue_applied (fail e) t q h = absurd (omega (arith, h, q.same_applies))

  -- An apply behind a silent step: the step went on.
  pub applied_behind :
      (P : A → Type 0) (m : Action K A)
      → Silent m
      → ((a : A) → (m s).0 ≡ next a → ((m s).1 ≡ s) × P a)
      → applies s.trace < applies ((m >>= f) s).1.trace
      → (a : A) × P a × (applies s.trace < applies (f a s).1.trace)
  unfolding ◌>>=◌
  applied_behind P m q inv h =
      let (a, e, l) = continue_applied (m s).0 (m s).1 (q.at s) h in
      let (same, p) = inv a e in
      (a, p, subst (λ (t : State K). applies s.trace < applies (f a t).1.trace) same l)

module _ (K : Kube) (ctx : Context K) where
  open K use {Obj, Value, render}

  -- The desired object is rendered, and its policy is in effect.
  pub record AppliedReady (asset : Asset) (dependency : Dependency) (s : State K) : Type 0 where
    pub desired : Obj
    pub renders : render asset.name ctx.hco ctx.facts s.cluster ≡ ok (some desired)
    pub ready : Ready K ctx.hco ctx.facts dependency.policy_asset desired s.cluster

  -- Where ReconcileAsset applies something for an asset with a node disruption policy, the asset
  -- rendered a MachineConfig and the policy is ready for it on the cluster that the call found:
  -- the policy asset renders a policy, the policy covers every change of the MachineConfig, and
  -- the live MachineConfiguration reports all that the policy wants.
  pub reconcile_asset_behind_policy :
      (asset : Asset) (dependency : Dependency) (s : State K)
      → asset.policy ≡ some dependency
      → applies s.trace < applies (reconcile_asset K ctx asset s).1.trace
      → AppliedReady asset dependency s
  unfolding reconcile_asset reconcile_action
  reconcile_asset_behind_policy asset dependency s p h =
      let (d, r, h1) =
        applied_behind _ s _ (render_asset K ctx asset) (render_asset-Silent K ctx asset)
          (render_passed K ctx s asset) h in
      let (u, v, h2) =
        applied_behind _ s (λ u. Unit {0}) (check_exclusion K ctx d)
          (check_exclusion-Silent K ctx d) (λ u e. (exclusion_passed K ctx s d e, tt)) h1 in
      let (q, ready, h3) =
        applied_behind _ s _ (check_policy K ctx asset d) (check_policy-Silent K ctx asset d)
          (λ q. policy_passed K ctx s asset d q dependency p) h2 in
      record {
        desired = d;
        renders = r;
        ready = policy_ready-Ready K ctx.hco ctx.facts dependency.policy_asset d s.cluster ready;
      }
