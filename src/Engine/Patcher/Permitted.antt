-- ===== src/Engine/Patcher/Permitted.antt =====
-- What `ReconcileAsset` of pkg/engine/patcher.go has found out when it applies an asset: no exclusion, no
-- pause and no opt-out stands against it.
use virt_platform_autopilot.Prelude.{
  ◌<◌, ◌≡◌, ◌≢◌, inl, inr, refl, true, false, Bool-cases, Option, some, arith,
}
use virt_platform_autopilot.Prelude.Maps.{lookup}
use virt_platform_autopilot.Kube.{Kube, ObjectId, Error, Asset, ok, err, is_not_found}
use virt_platform_autopilot.Overrides.Validation.{
  annotation_reconcile_paused, annotation_mode, mode_unmanaged, is_paused, is_unmanaged,
}
use virt_platform_autopilot.Engine.Applier.{get_direct}
use virt_platform_autopilot.Engine.Flow.{State, Flow, next, stop, fail, Action, continue, ◌>>=◌}
use virt_platform_autopilot.Engine.Flow.Silent.{applies}
use virt_platform_autopilot.Engine.Patcher.Barrier.{applied_behind}
use virt_platform_autopilot.Engine.Patcher.Customize.{
  check_paused, reset_thrashing, clear_customizations, check_unmanaged,
}
use virt_platform_autopilot.Engine.Patcher.Customize.Silent.{
  check_paused-Silent, clear_customizations-Silent, check_unmanaged-Silent, reset_leaves,
}
use virt_platform_autopilot.Engine.Patcher.Prepare.{
  Context, render_asset, check_exclusion, check_policy, get_live,
}
use virt_platform_autopilot.Engine.Patcher.Prepare.Allowed.{
  NotExcluded, Prepared, Read, from_cache, from_server, missing, exclusion_NotExcluded,
  policy_Prepared, live_Read,
}
use virt_platform_autopilot.Engine.Patcher.Prepare.Silent.{
  render_asset-Silent, check_exclusion-Silent, check_policy-Silent, get_live-Silent,
}
use virt_platform_autopilot.Engine.Patcher.Prepare.Passed.{render_passed, exclusion_passed}
use virt_platform_autopilot.Engine.Patcher.{manage, reconcile_action, reconcile_asset}

module _ {K : Kube} {A B : Type 0} (s : State K) (f : A → Action K B) where
  -- An apply behind a step that applies nothing: the step went on.
  applied_after :
      (P : A → Type 0) (m : Action K A)
      → applies (m s).1.trace ≡ applies s.trace
      → ((a : A) → (m s).0 ≡ next a → P a)
      → applies s.trace < applies ((m >>= f) s).1.trace
      → (a : A) × P a × (t : State K) × (applies t.trace < applies (f a t).1.trace)
  unfolding ◌>>=◌
  applied_after P m q inv h = after (m s).0 (m s).1 q inv h
    where
      after :
          (r : Flow A) (t : State K)
          → applies t.trace ≡ applies s.trace
          → ((a : A) → r ≡ next a → P a)
          → applies s.trace < applies (continue r f t).1.trace
          → (a : A) × P a × (t : State K) × (applies t.trace < applies (f a t).1.trace)
      after (next a) t e i g = (a, i a refl, t, omega (arith, e, g))
      after (stop b) t e i g = absurd (omega (arith, e, g))
      after (fail x) t e i g = absurd (omega (arith, e, g))

module _ (K : Kube) (ctx : Context K) where
  open K use {Obj, id_of, annotations, set_annotations, get, render}

  -- The user neither paused the object nor opted it out.
  pub record NotWithheld (live : Obj) : Type 0 where
    pub unpaused : lookup (annotations live) annotation_reconcile_paused ≢ some "true"
    pub managed : lookup (annotations live) annotation_mode ≢ some mode_unmanaged

  -- What the cache, and after a miss the direct read, say of the object.
  pub data LiveAllows (id : ObjectId) (c : Kube.Cluster K) : Type 0 where
    cached : (live : Obj) → get id c ≡ ok live → NotWithheld live → LiveAllows id c
    direct :
        (e : Error)
        → get id c ≡ err e
        → is_not_found e ≡ true
        → (live : Obj) → get_direct K ctx.has_reader id c ≡ ok live
        → NotWithheld live
        → LiveAllows id c
    absent :
        (e d : Error)
        → get id c ≡ err e
        → is_not_found e ≡ true
        → get_direct K ctx.has_reader id c ≡ err d
        → is_not_found d ≡ true
        → LiveAllows id c

  pub record Permitted (asset : Asset) (c : Kube.Cluster K) : Type 0 where
    pub desired : Obj
    pub renders : render asset.name ctx.hco ctx.facts c ≡ ok (some desired)
    pub included : NotExcluded K ctx (id_of desired)
    pub prepared : Obj
    pub is_prepared : Prepared K ctx desired prepared
    pub allowed : LiveAllows (id_of prepared) c

  not_paused :
      (live : Obj)
      → is_paused K live ≡ false
      → lookup (annotations live) annotation_reconcile_paused ≢ some "true"
  unfolding is_paused
  not_paused live h e = cc (rw e at h)

  not_unmanaged :
      (live : Obj)
      → is_unmanaged K live ≡ false
      → lookup (annotations live) annotation_mode ≢ some mode_unmanaged
  unfolding is_unmanaged
  not_unmanaged live h e = cc (rw e at h)

  paused_gate :
      (s : State K) (d live : Obj)
      → (check_paused K ctx d (some live) s).0 ≡ next tt
      → is_paused K live ≡ false
  unfolding check_paused ◌>>=◌
  paused_gate s d live h = elim (Bool-cases (is_paused K live)) [
    | inl p ↦ cc (rw p at h)
    | inr p ↦ p
  ]

  unmanaged_gate :
      (s : State K) (d live : Obj)
      → (check_unmanaged K ctx d (some live) s).0 ≡ next tt
      → is_unmanaged K live ≡ false
  unfolding check_unmanaged ◌>>=◌
  unmanaged_gate s d live h = elim (Bool-cases (is_unmanaged K live)) [
    | inl p ↦ elim (Bool-cases ctx.has_recorder) [
      | inl r ↦ cc (rw (p, r) at h)
      | inr r ↦ cc (rw (p, r) at h)
    ]
    | inr p ↦ p
  ]

  -- An apply in the steps after the read: the live object is neither paused nor opted out.
  manage-NotWithheld :
      (asset : Asset) (d live : Obj) (s : State K)
      → applies s.trace < applies (manage K ctx asset d (some live) s).1.trace
      → NotWithheld live
  unfolding manage
  manage-NotWithheld asset d live s h =
      let (u, p, t, h1) =
        applied_after s _ (λ u. is_paused K live ≡ false) (check_paused K ctx d (some live))
          ((check_paused-Silent K ctx d (some live)).at s).same_applies
          (λ (u : Unit {0}) e. paused_gate s d live e) h in
      let (v, p1, t1, h2) =
        applied_after t _ (λ u. Unit {0}) (reset_thrashing K ctx d (some live))
          (reset_leaves K ctx d (some live) t).0 (λ u e. tt) h1 in
      let (w, p2, t2, h3) =
        applied_after t1 _ (λ u. Unit {0}) (clear_customizations K ctx d (some live))
          ((clear_customizations-Silent K ctx d (some live)).at t1).same_applies (λ u e. tt) h2 in
      let (x, q, t3, h4) =
        applied_after t2 _ (λ u. is_unmanaged K live ≡ false) (check_unmanaged K ctx d (some live))
          ((check_unmanaged-Silent K ctx d (some live)).at t2).same_applies
          (λ (u : Unit {0}) e. unmanaged_gate t2 d live e) h3 in
      record { unpaused = not_paused live p; managed = not_unmanaged live q }

  allowed_by :
      (asset : Asset) (d : Obj) (o : Option Obj) (s : State K)
      → Read K ctx (id_of d) s.cluster o
      → applies s.trace < applies (manage K ctx asset d o s).1.trace
      → LiveAllows (id_of d) s.cluster
  allowed_by asset d o s (from_cache live g) h = cached live g (manage-NotWithheld asset d live s h)
  allowed_by asset d o s (from_server e g n live r) h =
      direct e g n live r (manage-NotWithheld asset d live s h)
  allowed_by asset d o s (missing e x g n r m) h = absent e x g n r m

  -- Where ReconcileAsset applies something, the asset rendered an object, no rule of the HCO's
  -- annotation applies to it, unless the annotation is missing, empty or cannot be parsed, and
  -- the live object was found in the cache or by the direct read, and its annotations neither
  -- pause it nor opt it out, or both reads said that there is none. The object looked up is the
  -- rendered one, with or without the annotation of the node disruption policy.
  pub reconcile_asset-Permitted :
      (asset : Asset) (s : State K)
      → applies s.trace < applies (reconcile_asset K ctx asset s).1.trace
      → Permitted asset s.cluster
  unfolding reconcile_asset reconcile_action
  reconcile_asset-Permitted asset s h =
      let (d, r, h1) =
        applied_behind _ s _ (render_asset K ctx asset) (render_asset-Silent K ctx asset)
          (render_passed K ctx s asset) h in
      let (u, x, h2) =
        applied_behind _ s (λ u. NotExcluded K ctx (id_of d)) (check_exclusion K ctx d)
          (check_exclusion-Silent K ctx d)
          (λ u e. (exclusion_passed K ctx s d e, exclusion_NotExcluded K ctx s d e)) h1 in
      let (p, same, h3) =
        applied_behind _ s _ (check_policy K ctx asset d) (check_policy-Silent K ctx asset d)
          (λ p e. policy_Prepared K ctx s asset d p e) h2 in
      let (o, read, h4) =
        applied_behind _ s _ (get_live K ctx p) (get_live-Silent K ctx p)
          (λ o e. live_Read K ctx s p o e) h3 in
      record {
        desired = d;
        renders = r;
        included = x;
        prepared = p;
        is_prepared = same;
        allowed = allowed_by asset p o s read h4;
      }
