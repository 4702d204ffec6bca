-- ===== src/Engine/Patcher/Prepare/Passed.antt =====
-- What the first steps of `ReconcileAsset` in pkg/engine/patcher.go have found out when the call goes on.
use virt_platform_autopilot.Prelude.{
  String, ◌==◌, ◌≡◌, refl, sym, ap, ◌∙◌, Bool, true, false, not, ◌&&◌, Option, none, some,
  if◌then◌else◌,
}
use virt_platform_autopilot.Prelude.Maps.{lookup}
use virt_platform_autopilot.Kube.{Kube, Error, Asset, Dependency, Result, ok, err}
use virt_platform_autopilot.Engine.Flow.{
  State, Flow, next, stop, fail, Action, ◌>>=◌, ◌>>◌, pure, raise, emit_if, in_context,
}
use virt_platform_autopilot.Engine.Exclusion.{disabled_resources_annotation}
use virt_platform_autopilot.Engine.NodeDisruption.Effective.{policy_ready}
use virt_platform_autopilot.Engine.Patcher.Prepare.{
  Context, text_or_empty, is_disabled, render_answer, render_asset, check_exclusion, policy_answer,
  prepare_policy, check_policy,
}

pub next_in_context :
    {A : Type 0} (m : String) (r : Flow A) (a : A) → in_context m r ≡ next a → r ≡ next a
next_in_context m (next b) a h = h
next_in_context m (stop b) a h = cc
next_in_context m (fail e) a h = cc

raise_after :
    {K : Kube} {A : Type 0} (b : Bool) (e : _) (x : Error) (s : State K) (a : A)
    → ((emit_if b e >> raise x) s).0 ≡ next a
    → ⊥
unfolding ◌>>=◌
raise_after true e x s a h = cc
raise_after false e x s a h = cc

module _ (K : Kube) (ctx : Context K) (s : State K) where
  open K use {Obj, annotations, render}

  answer_passed :
      (asset : Asset) (r : Result (Option Obj)) (d : Obj)
      → (render_answer K ctx asset r s).0 ≡ next d
      → ((render_answer K ctx asset r s).1 ≡ s) × (r ≡ ok (some d))
  unfolding render_answer ◌>>=◌
  answer_passed asset (err e) d h = absurd (raise_after ctx.has_recorder _ _ s d h)
  answer_passed asset (ok none) d h = cc
  answer_passed asset (ok (some o)) d h = let e : o ≡ d = cc in (refl, ap (λ x. ok (some x)) e)

  pub render_passed :
      (asset : Asset) (d : Obj)
      → (render_asset K ctx asset s).0 ≡ next d
      → ((render_asset K ctx asset s).1 ≡ s)
        × (render asset.name ctx.hco ctx.facts s.cluster ≡ ok (some d))
  unfolding render_asset ◌>>=◌
  render_passed asset d h = answer_passed asset _ d h

  choice_passed :
      (b : Bool) (m : Action K (Unit {0}))
      → ((m s).0 ≡ next tt → ⊥)
      → ((if b then m else pure tt) s).0 ≡ next tt
      → ((if b then m else pure tt) s).1 ≡ s
  choice_passed true m n h = absurd (n h)
  choice_passed false m n h = refl

  pub exclusion_passed :
      (d : Obj) → (check_exclusion K ctx d s).0 ≡ next tt → (check_exclusion K ctx d s).1 ≡ s
  unfolding check_exclusion ◌>>=◌
  exclusion_passed d h =
      let annotation = text_or_empty (lookup (annotations ctx.hco) disabled_resources_annotation) in
      choice_passed (not (annotation == "") && is_disabled K ctx d annotation) _ (λ e. cc) h

  policy_answer_passed :
      (d p : Obj) (r : Result Bool)
      → (policy_answer K ctx d r s).0 ≡ next p
      → ((policy_answer K ctx d r s).1 ≡ s) × (r ≡ ok true)
  unfolding policy_answer ◌>>=◌
  policy_answer_passed d p (err e) h = cc
  policy_answer_passed d p (ok false) h = cc
  policy_answer_passed d p (ok true) h = (refl, refl)

  prepare_passed :
      (d p : Obj) (policy : Option Dependency) (dependency : Dependency)
      → policy ≡ some dependency
      → (prepare_policy K ctx d policy s).0 ≡ next p
      → ((prepare_policy K ctx d policy s).1 ≡ s)
        × (policy_ready K ctx.hco ctx.facts dependency.policy_asset d s.cluster ≡ ok true)
  unfolding prepare_policy ◌>>=◌
  prepare_passed d p none dependency e h = cc
  prepare_passed d p (some c) dependency e h =
      let f : c ≡ dependency = cc in
      let (a, b) = policy_answer_passed d p _ h in
      (
        a,
        ap (λ (x : Dependency). policy_ready K ctx.hco ctx.facts x.policy_asset d s.cluster) (sym f)
            ∙ b,
      )

  pub policy_passed :
      (asset : Asset) (d p : Obj) (dependency : Dependency)
      → asset.policy ≡ some dependency
      → (check_policy K ctx asset d s).0 ≡ next p
      → ((check_policy K ctx asset d s).1 ≡ s)
        × (policy_ready K ctx.hco ctx.facts dependency.policy_asset d s.cluster ≡ ok true)
  unfolding check_policy
  policy_passed asset d p dependency e h =
      prepare_passed d p asset.policy dependency e (next_in_context _ _ p h)
