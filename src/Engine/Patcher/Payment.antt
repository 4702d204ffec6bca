-- ===== src/Engine/Patcher/Payment.antt =====
-- Every object that pkg/engine/patcher.go applies is paid for by a token of one of the limiter's buckets.
use mathlib.Core.Path.{subst}
use virt_platform_autopilot.Prelude.{
  ℕ, ◌+◌, ◌≤◌, String, ◌≡◌, sym, ap, ◌∙◌, Bool, Option, List, [], ◌∷◌, length, arith,
}
use virt_platform_autopilot.Kube.{Kube, Asset}
use virt_platform_autopilot.Engine.Flow.{
  State, Flow, next, stop, fail, Action, continue, ◌>>=◌, ◌>>◌,
}
use virt_platform_autopilot.Engine.Flow.Silent.{applies}
use virt_platform_autopilot.Engine.Flow.Payment.{
  Paid, none_applied, one_applied, Paid-bind, SameLimiter, OrReset,
}
use virt_platform_autopilot.Engine.Patcher.Prepare.{Context}
use virt_platform_autopilot.Engine.Patcher.Prepare.Silent.{
  render_asset-Silent, check_exclusion-Silent, check_policy-Silent, get_live-Silent,
}
use virt_platform_autopilot.Engine.Patcher.Customize.{reset_thrashing}
use virt_platform_autopilot.Engine.Patcher.Customize.Silent.{
  check_paused-Silent, clear_customizations-Silent, check_unmanaged-Silent, apply_user_patch-Silent,
  hash_update-Silent, mask_fields-Silent, reset_leaves,
}
use virt_platform_autopilot.Engine.Patcher.Enforce.{normalize}
use virt_platform_autopilot.Engine.Patcher.Enforce.Tokens.{
  check_drift-Silent, check_coalescing-Silent, check_namespace-Silent, gate-Paid,
}
use virt_platform_autopilot.Engine.Patcher.{
  enforce, customize, manage, reconcile_action, reconcile_asset, reconcile_each, reconcile_assets,
  Tally, count,
}

module _ (K : Kube) (ctx : Context K) where
  open K use {Obj}

  abbrev now : ℕ
  now = ctx.now

  enforce-Paid :
      (asset : Asset) (desired : Obj) (live : Option Obj) (hash : String) (s : State K)
      → Paid SameLimiter now s (enforce K ctx asset desired live hash s).1
  unfolding enforce
  enforce-Paid asset desired live hash s =
      Paid-bind _ now _ _ s (check_drift-Silent K ctx desired live) λ _ s.
        Paid-bind _ now _ _ s (check_coalescing-Silent K ctx desired live hash) λ _ s.
          Paid-bind _ now _ _ s (check_namespace-Silent K ctx desired)
            λ _ s. gate-Paid K ctx asset desired live s

  customize-Paid :
      (asset : Asset) (desired : Obj) (live : Option Obj) (s : State K)
      → Paid SameLimiter now s (customize K ctx asset desired live s).1
  unfolding customize
  customize-Paid asset desired live s =
      Paid-bind _ now _ _ s (apply_user_patch-Silent K ctx desired live) λ patched s.
        Paid-bind _ now _ _ s (hash_update-Silent K ctx patched live) λ hash s.
          Paid-bind _ now _ _ s (mask_fields-Silent K ctx patched live)
            λ masked s. enforce-Paid asset (normalize K ctx masked live) live hash s

  or_reset :
      (s t u : State K)
      → applies t.trace ≡ applies s.trace
      → OrReset s.throttle t.throttle
      → Paid SameLimiter now t u
      → Paid OrReset now s u
  or_reset s t u p r (none_applied h) = none_applied (h ∙ p)
  or_reset s t u p r (one_applied tb key h same e) =
      one_applied tb key (h ∙ ap (λ n. n + 1) p) (subst (OrReset s.throttle) (sym same) r) e

  after_reset :
      (desired : Obj) (live : Option Obj) (f : Action K Bool) (s : State K)
      → ((u : State K) → Paid SameLimiter now u (f u).1)
      → Paid OrReset now s ((reset_thrashing K ctx desired live >> f) s).1
  unfolding ◌>>=◌
  after_reset desired live f s h =
      go (reset_thrashing K ctx desired live s).0 (reset_thrashing K ctx desired live s).1
        (reset_leaves K ctx desired live s)
    where
      go :
          (r : Flow (Unit {0})) (t : State K)
          → (applies t.trace ≡ applies s.trace) × OrReset s.throttle t.throttle
          → Paid OrReset now s (continue r (λ u. f) t).1
      go (next a) t p = or_reset s t _ p.0 p.1 (h t)
      go (stop b) t p = none_applied p.0
      go (fail e) t p = none_applied p.0

  manage-Paid :
      (asset : Asset) (desired : Obj) (live : Option Obj) (s : State K)
      → Paid OrReset now s (manage K ctx asset desired live s).1
  unfolding manage
  manage-Paid asset desired live s =
      Paid-bind _ now _ _ s (check_paused-Silent K ctx desired live) λ _ s.
        after_reset desired live _ s λ s.
          Paid-bind _ now _ _ s (clear_customizations-Silent K ctx desired live) λ _ s.
            Paid-bind _ now _ _ s (check_unmanaged-Silent K ctx desired live)
              λ _ s. customize-Paid asset desired live s

  -- One ReconcileAsset makes no apply, or exactly one, for which a token of the limiter was
  -- granted; the limiter is the one it began with, or that one without one bucket.
  pub reconcile_asset-Paid :
      (asset : Asset) (s : State K) → Paid OrReset now s (reconcile_asset K ctx asset s).1
  unfolding reconcile_asset reconcile_action
  reconcile_asset-Paid asset s =
      Paid-bind _ now _ _ s (render_asset-Silent K ctx asset) λ desired s.
        Paid-bind _ now _ _ s (check_exclusion-Silent K ctx desired) λ _ s.
          Paid-bind _ now _ _ s (check_policy-Silent K ctx asset desired) λ prepared s.
            Paid-bind _ now _ _ s (get_live-Silent K ctx prepared)
              λ live s. manage-Paid asset prepared live s

  Paid-le : {s t : State K} → Paid OrReset now s t → applies t.trace ≤ applies s.trace + 1
  Paid-le (none_applied h) = omega arith
  Paid-le (one_applied tb key h r e) = omega arith

  reconcile_each-le :
      (assets : List Asset) (t : Tally K ctx) (s : State K)
      → applies (reconcile_each K ctx assets t s).1.trace ≤ applies s.trace + length assets
  unfolding reconcile_each
  reconcile_each-le [] t s = omega arith
  reconcile_each-le (asset ∷ assets) t s =
      let (r, s') = reconcile_asset K ctx asset s in
      omega (
        arith,
        Paid-le (reconcile_asset-Paid asset s),
        reconcile_each-le assets (count K ctx t asset r) s',
      )

  -- A pass over the assets makes at most one apply for each asset.
  pub reconcile_assets-le :
      (assets : List Asset) (s : State K)
      → applies (reconcile_assets K ctx assets s).2.trace ≤ applies s.trace + length assets
  unfolding reconcile_assets
  reconcile_assets-le assets s = reconcile_each-le assets _ _
