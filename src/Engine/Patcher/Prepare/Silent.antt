-- ===== src/Engine/Patcher/Prepare/Silent.antt =====
-- The first steps of `ReconcileAsset` neither apply an object nor spend a token.
use virt_platform_autopilot.Prelude.{Bool, true, false, Option, none, some}
use virt_platform_autopilot.Kube.{Dependency, Kube, ObjectId, Asset, Result, ok, err}
use virt_platform_autopilot.Engine.Flow.Silent.{Silent, silent_rules}
use virt_platform_autopilot.Engine.Patcher.Prepare.{
  Context, render_answer, render_asset, check_exclusion, policy_answer, prepare_policy,
  check_policy, direct_answer, cached_answer, get_live,
}

module _ (K : Kube) (ctx : Context K) where
  open K use {Obj}

  render_answer-Silent :
      (asset : Asset) (r : Result (Option Obj)) → Silent (render_answer K ctx asset r)
  unfolding render_answer
  render_answer-Silent asset (err e) = search silent_rules
  render_answer-Silent asset (ok none) = search silent_rules
  render_answer-Silent asset (ok (some desired)) = search silent_rules

  pub render_asset-Silent : (asset : Asset) → Silent (render_asset K ctx asset)
  unfolding render_asset
  render_asset-Silent asset = search (silent_rules, render_answer-Silent)

  pub check_exclusion-Silent : (desired : Obj) → Silent (check_exclusion K ctx desired)
  unfolding check_exclusion
  check_exclusion-Silent desired = search silent_rules

  policy_answer-Silent : (desired : Obj) (r : Result Bool) → Silent (policy_answer K ctx desired r)
  unfolding policy_answer
  policy_answer-Silent desired (err e) = search silent_rules
  policy_answer-Silent desired (ok false) = search silent_rules
  policy_answer-Silent desired (ok true) = search silent_rules

  prepare_policy-Silent :
      (desired : Obj) (policy : Option Dependency) → Silent (prepare_policy K ctx desired policy)
  unfolding prepare_policy
  prepare_policy-Silent desired none = search silent_rules
  prepare_policy-Silent desired (some policy) = search (silent_rules, policy_answer-Silent)

  pub check_policy-Silent :
      (asset : Asset) (desired : Obj) → Silent (check_policy K ctx asset desired)
  unfolding check_policy
  check_policy-Silent asset desired = search (silent_rules, prepare_policy-Silent)

  direct_answer-Silent : (r : Result Obj) → Silent (direct_answer K ctx r)
  unfolding direct_answer
  direct_answer-Silent (ok live) = search silent_rules
  direct_answer-Silent (err e) = search silent_rules

  cached_answer-Silent : (id : ObjectId) (r : Result Obj) → Silent (cached_answer K ctx id r)
  unfolding cached_answer
  cached_answer-Silent id (ok live) = search silent_rules
  cached_answer-Silent id (err e) = search (silent_rules, direct_answer-Silent)

  pub get_live-Silent : (desired : Obj) → Silent (get_live K ctx desired)
  unfolding get_live
  get_live-Silent desired = search (silent_rules, cached_answer-Silent)
