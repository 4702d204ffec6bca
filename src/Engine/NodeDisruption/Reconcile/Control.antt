-- ===== src/Engine/NodeDisruption/Reconcile/Control.antt =====
-- When `ReconcileNodeDisruptionPolicies` of node_disruption_policy.go says that Autopilot controls the policy, and
-- when it writes the singleton.
use virt_platform_autopilot.Prelude.{
  ℕ, String, ◌≡◌, ◌≢◌, ◌<◌, eq_iff, ap, arith, refl, ◌⊎◌, inl, inr, Bool, true, false, not, ◌&&◌,
  Bool-cases, Option, none, some, is_some,
}
use virt_platform_autopilot.Prelude.Maps.{lookup}
use virt_platform_autopilot.Kube.{Kube, Error, Result, ok, err, is_not_found}
use virt_platform_autopilot.Engine.Flow.{State, next, ◌>>=◌}
use virt_platform_autopilot.Engine.Applier.{
  managed_by_label, managed_by_value, is_managed_value, has_managed_by_label,
}
use virt_platform_autopilot.Engine.Flow.Silent.{applies}
use virt_platform_autopilot.Overrides.Validation.{
  annotation_ignore_fields, annotation_mode, mode_unmanaged, is_unmanaged,
}
use virt_platform_autopilot.Overrides.Pointer.{mask_ignored_fields}
use virt_platform_autopilot.Engine.NodeDisruption.Reconcile.{
  applied_answer, apply_aggregate, masked_answer, reconcile_live, reconcile_aggregate,
}

less_itself : (n : ℕ) → n < n → ⊥
less_itself n h = omega (arith, h)

module _ (K : Kube) where
  open K use {Obj, Cluster, id_of, annotations, labels, get}

  -- What Autopilot controls: a singleton that it may create, or one that no override withholds.
  pub data Controlled (desired : Obj) (allow_create : Bool) (cluster : Cluster) : Type 0 where
    created :
        (e : Error)
        → get (id_of desired) cluster ≡ err e
        → is_not_found e ≡ true
        → allow_create ≡ true
        → Controlled desired allow_create cluster
    applied :
        (live : Obj)
        → get (id_of desired) cluster ≡ ok live
        → (allow_create ≡ true) ⊎ (has_managed_by_label K live ≡ true)
        → is_unmanaged K live ≡ false
        → lookup (annotations live) annotation_ignore_fields ≡ none
        → Controlled desired allow_create cluster

  answer_safe :
      (safe : Bool) (changes n : ℕ) (r : Result Bool) (s : State K)
      → (applied_answer K safe changes r s).0 ≡ next (true, n)
      → safe ≡ true
  unfolding applied_answer
  answer_safe safe changes n (ok a) s h = cc
  answer_safe safe changes n (err e) s h = cc

  apply_safe :
      (desired : Obj) (safe : Bool) (changes n : ℕ) (s : State K)
      → (apply_aggregate K desired safe changes s).0 ≡ next (true, n)
      → safe ≡ true
  unfolding apply_aggregate ◌>>=◌
  apply_safe desired safe changes n s h = answer_safe safe changes n _ _ h

  not_ignored : (o : Option String) → not (is_some o) ≡ true → o ≡ none
  not_ignored none h = refl
  not_ignored (some a) h = cc

  mask_safe :
      (live : Obj) (r : Result Obj) (n : ℕ) (s : State K)
      → (masked_answer K live r s).0 ≡ next (true, n)
      → lookup (annotations live) annotation_ignore_fields ≡ none
  unfolding masked_answer
  mask_safe live (err e) n s h = cc
  mask_safe live (ok masked) n s h = not_ignored _ (apply_safe masked _ _ n s h)

  may_apply : (a b : Bool) → not a && not b ≡ false → (a ≡ true) ⊎ (b ≡ true)
  may_apply true b h = inl refl
  may_apply false true h = inr refl
  may_apply false false h = cc

  live_Controlled :
      (desired : Obj) (allow_create : Bool) (r : Result Obj) (n : ℕ) (s : State K)
      → get (id_of desired) s.cluster ≡ r
      → (reconcile_live K desired allow_create r s).0 ≡ next (true, n)
      → Controlled desired allow_create s.cluster
  unfolding reconcile_live
  live_Controlled desired allow_create (err e) n s g h = elim (Bool-cases (is_not_found e)) [
    | inl f ↦ elim (Bool-cases allow_create) [
      | inl a ↦ created e g f a
      | inr a ↦ cc (rw (f, a) at h)
    ]
    | inr f ↦ cc (rw f at h)
  ]
  live_Controlled desired allow_create (ok live) n s g h =
      elim (Bool-cases (not allow_create && not (has_managed_by_label K live))) [
        | inl a ↦ cc (rw a at h)
        | inr a ↦ elim (Bool-cases (is_unmanaged K live)) [
          | inl u ↦ cc (rw (a, u) at h)
          | inr u ↦
              applied live g (may_apply _ _ a) u
                (mask_safe live (mask_ignored_fields K desired live) n s (rw (a, u) at h))
        ]
      ]

  -- The aggregate policy counts as controlled only where the singleton was missing and may be
  -- created, or is there, is not unmanaged, has no ignored fields, and may be created or carries
  -- the autopilot's label.
  pub reconcile_aggregate-Controlled :
      (desired : Obj) (allow_create : Bool) (n : ℕ) (s : State K)
      → (reconcile_aggregate K desired allow_create s).0 ≡ next (true, n)
      → Controlled desired allow_create s.cluster
  unfolding reconcile_aggregate ◌>>=◌
  reconcile_aggregate-Controlled desired allow_create n s h =
      live_Controlled desired allow_create _ n s refl h

  -- What Autopilot may write: a singleton that it may create, or one of its own that no opt-out
  -- withholds.
  pub data Writable (desired : Obj) (allow_create : Bool) (cluster : Cluster) : Type 0 where
    missing :
        (e : Error)
        → get (id_of desired) cluster ≡ err e
        → is_not_found e ≡ true
        → allow_create ≡ true
        → Writable desired allow_create cluster
    present :
        (live : Obj)
        → get (id_of desired) cluster ≡ ok live
        → (allow_create ≡ true) ⊎ (lookup (labels live) managed_by_label ≡ some managed_by_value)
        → lookup (annotations live) annotation_mode ≢ some mode_unmanaged
        → Writable desired allow_create cluster

  managed_value : (o : Option String) → is_managed_value K o ≡ true → o ≡ some managed_by_value
  managed_value none h = cc
  managed_value (some v) h = ap some ((eq_iff v managed_by_value).0 h)

  labelled :
      (live : Obj)
      → has_managed_by_label K live ≡ true
      → lookup (labels live) managed_by_label ≡ some managed_by_value
  unfolding has_managed_by_label
  labelled live h = managed_value (lookup (labels live) managed_by_label) h

  not_unmanaged :
      (live : Obj)
      → is_unmanaged K live ≡ false
      → lookup (annotations live) annotation_mode ≢ some mode_unmanaged
  unfolding is_unmanaged
  not_unmanaged live h e = cc (rw e at h)

  live_Writable :
      (desired : Obj) (allow_create : Bool) (r : Result Obj) (s : State K)
      → get (id_of desired) s.cluster ≡ r
      → applies s.trace < applies (reconcile_live K desired allow_create r s).1.trace
      → Writable desired allow_create s.cluster
  unfolding reconcile_live
  live_Writable desired allow_create (err e) s g h = elim (Bool-cases (is_not_found e)) [
    | inl f ↦ elim (Bool-cases allow_create) [
      | inl a ↦ missing e g f a
      | inr a ↦ absurd (less_itself _ (rw (f, a) at h))
    ]
    | inr f ↦ absurd (less_itself _ (rw f at h))
  ]
  live_Writable desired allow_create (ok live) s g h =
      elim (Bool-cases (not allow_create && not (has_managed_by_label K live))) [
        | inl a ↦ absurd (less_itself _ (rw a at h))
        | inr a ↦ elim (Bool-cases (is_unmanaged K live)) [
          | inl u ↦ absurd (less_itself _ (rw (a, u) at h))
          | inr u ↦ present live g (owned (may_apply _ _ a)) (not_unmanaged live u)
        ]
      ]
    where
      owned :
          (allow_create ≡ true) ⊎ (has_managed_by_label K live ≡ true)
          → (allow_create ≡ true) ⊎ (lookup (labels live) managed_by_label ≡ some managed_by_value)
      owned (inl a) = inl a
      owned (inr b) = inr (labelled live b)

  -- Where the reconciliation of the aggregate policy applies something, the singleton was missing
  -- and may be created, or is there, may be created or carries the autopilot's label, and its
  -- annotations do not opt it out.
  pub reconcile_aggregate-Writable :
      (desired : Obj) (allow_create : Bool) (s : State K)
      → applies s.trace < applies (reconcile_aggregate K desired allow_create s).1.trace
      → Writable desired allow_create s.cluster
  unfolding reconcile_aggregate ◌>>=◌
  reconcile_aggregate-Writable desired allow_create s h =
      live_Writable desired allow_create _ s refl h
