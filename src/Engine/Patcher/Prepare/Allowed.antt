-- ===== src/Engine/Patcher/Prepare/Allowed.antt =====
-- What the first steps of `ReconcileAsset` in pkg/engine/patcher.go say of the object when the call goes on:
-- which exclusion they looked at, and which live object they read.
use mathlib.Core.Bool.{false≢true}
use mathlib.Core.Path.{subst}
use virt_platform_autopilot.Prelude.{
  String, ◌==◌, eq_iff, ◌≡◌, ◌⊎◌, inl, inr, refl, sym, ap, ◌∙◌, Bool, true, false, not, ◌&&◌,
  Bool-cases, Option, none, some, List, if◌then◌else◌,
}
use virt_platform_autopilot.Prelude.Maps.{lookup, insert}
use virt_platform_autopilot.Kube.{
  Kube, ObjectId, Error, Asset, Dependency, ExclusionRule, Result, ok, err, is_not_found,
}
use virt_platform_autopilot.Engine.Applier.{get_direct}
use virt_platform_autopilot.Engine.Exclusion.{
  disabled_resources_annotation, parse_disabled_resources,
}
use virt_platform_autopilot.Engine.Exclusion.Rules.{AnyApplies, is_resource_excluded_exact}
use virt_platform_autopilot.Engine.Flow.{State, next, Action, ◌>>=◌, pure}
use virt_platform_autopilot.Engine.Coalescing.Pools.{policy_bypass_annotation}
use virt_platform_autopilot.Engine.Patcher.Prepare.{
  Context, text_or_empty, is_disabled, check_exclusion, policy_answer, prepare_policy, check_policy,
  direct_answer, cached_answer, get_live,
}
use virt_platform_autopilot.Engine.Patcher.Prepare.Passed.{next_in_context}

module _ (K : Kube) (ctx : Context K) where
  open K use {Obj, id_of, annotations, set_annotations, get}

  -- The HCO's annotation excludes nothing, or nothing of this identity.
  pub data NotExcluded (id : ObjectId) : Type 0 where
    no_annotation :
        lookup (annotations ctx.hco) disabled_resources_annotation ≡ none → NotExcluded id
    empty_annotation :
        lookup (annotations ctx.hco) disabled_resources_annotation ≡ some "" → NotExcluded id
    invalid :
        (annotation : String)
        → lookup (annotations ctx.hco) disabled_resources_annotation ≡ some annotation
        → (e : Error) → parse_disabled_resources K annotation ≡ err e
        → NotExcluded id
    no_rule :
        (annotation : String)
        → lookup (annotations ctx.hco) disabled_resources_annotation ≡ some annotation
        → (rules : List ExclusionRule) → parse_disabled_resources K annotation ≡ ok rules
        → ¬ AnyApplies K id.kind id.namespace id.name rules
        → NotExcluded id

  -- Only the annotation that a node disruption policy sets may tell the two apart.
  abbrev pub Prepared : Obj → Obj → Type 0
  Prepared desired prepared =
      (prepared ≡ desired)
      ⊎ (prepared
          ≡ set_annotations desired (insert (annotations desired) policy_bypass_annotation "true"))

  -- Which live object the steps after the read are given.
  pub data Read (id : ObjectId) (c : Kube.Cluster K) : Option Obj → Type 0 where
    from_cache : (live : Obj) → get id c ≡ ok live → Read id c (some live)
    from_server :
        (e : Error)
        → get id c ≡ err e
        → is_not_found e ≡ true
        → (live : Obj) → get_direct K ctx.has_reader id c ≡ ok live
        → Read id c (some live)
    missing :
        (e d : Error)
        → get id c ≡ err e
        → is_not_found e ≡ true
        → get_direct K ctx.has_reader id c ≡ err d
        → is_not_found d ≡ true
        → Read id c none

  disabled_none :
      (d : Obj) (annotation : String)
      → lookup (annotations ctx.hco) disabled_resources_annotation ≡ some annotation
      → (r : Result (List ExclusionRule)) → parse_disabled_resources K annotation ≡ r
      → is_disabled K ctx d annotation ≡ false
      → NotExcluded (id_of d)
  unfolding is_disabled
  disabled_none d annotation l (err e) p h = invalid annotation l e p
  disabled_none d annotation l (ok rules) p h = no_rule annotation l rules p (λ x. false≢true (
      sym (rw (is_disabled, p) at h)
      ∙ (is_resource_excluded_exact K (id_of d).kind (id_of d).namespace (id_of d).name rules).1 x))

  not_disabled :
      (d : Obj) (o : Option String)
      → lookup (annotations ctx.hco) disabled_resources_annotation ≡ o
      → (not (text_or_empty o == "") && is_disabled K ctx d (text_or_empty o)) ≡ false
      → NotExcluded (id_of d)
  not_disabled d none l h = no_annotation l
  not_disabled d (some annotation) l h = elim (Bool-cases (annotation == "")) [
    | inl e ↦ empty_annotation (l ∙ ap some ((eq_iff annotation "").0 e))
    | inr e ↦ disabled_none d annotation l _ refl (rw e at h)
  ]

  module _ (s : State K) where
    passed_gate :
        (b : Bool) (m : Action K (Unit {0}))
        → ((m s).0 ≡ next tt → ⊥)
        → ((if b then m else pure tt) s).0 ≡ next tt
        → b ≡ false
    passed_gate true m n h = absurd (n h)
    passed_gate false m n h = refl

    pub exclusion_NotExcluded :
        (d : Obj) → (check_exclusion K ctx d s).0 ≡ next tt → NotExcluded (id_of d)
    unfolding check_exclusion ◌>>=◌
    exclusion_NotExcluded d h =
        let o = lookup (annotations ctx.hco) disabled_resources_annotation in
        not_disabled d o refl (
          passed_gate (not (text_or_empty o == "") && is_disabled K ctx d (text_or_empty o)) _
            (λ e. cc) h)

    answer_Prepared :
        (d p : Obj) (r : Result Bool)
        → (policy_answer K ctx d r s).0 ≡ next p
        → ((policy_answer K ctx d r s).1 ≡ s) × Prepared d p
    unfolding policy_answer ◌>>=◌
    answer_Prepared d p (err e) h = cc
    answer_Prepared d p (ok false) h = cc
    answer_Prepared d p (ok true) h = (refl, inr (cc))

    prepare_Prepared :
        (d p : Obj) (policy : Option Dependency)
        → (prepare_policy K ctx d policy s).0 ≡ next p
        → ((prepare_policy K ctx d policy s).1 ≡ s) × Prepared d p
    unfolding prepare_policy ◌>>=◌
    prepare_Prepared d p none h = (refl, inl (cc))
    prepare_Prepared d p (some dependency) h = answer_Prepared d p _ h

    pub policy_Prepared :
        (asset : Asset) (d p : Obj)
        → (check_policy K ctx asset d s).0 ≡ next p
        → ((check_policy K ctx asset d s).1 ≡ s) × Prepared d p
    unfolding check_policy
    policy_Prepared asset d p h = prepare_Prepared d p asset.policy (next_in_context _ _ p h)

    direct_Read :
        (id : ObjectId) (e : Error) (r : Result Obj) (o : Option Obj)
        → get id s.cluster ≡ err e
        → is_not_found e ≡ true
        → get_direct K ctx.has_reader id s.cluster ≡ r
        → (direct_answer K ctx r s).0 ≡ next o
        → ((direct_answer K ctx r s).1 ≡ s) × Read id s.cluster o
    unfolding direct_answer
    direct_Read id e (ok live) o g f q h =
        let same : some live ≡ o = cc in
        (refl, subst (Read id s.cluster) same (from_server e g f live q))
    direct_Read id e (err d) o g f q h = elim (Bool-cases (is_not_found d)) [
      | inl n ↦
          let same : none ≡ o = cc (rw n at h) in
          rw n (refl, subst (Read id s.cluster) same (missing e d g f q n))
      | inr n ↦ cc (rw n at h)
    ]

    cached_Read :
        (id : ObjectId) (r : Result Obj) (o : Option Obj)
        → get id s.cluster ≡ r
        → (cached_answer K ctx id r s).0 ≡ next o
        → ((cached_answer K ctx id r s).1 ≡ s) × Read id s.cluster o
    unfolding cached_answer ◌>>=◌
    cached_Read id (ok live) o g h =
        let same : some live ≡ o = cc in (refl, subst (Read id s.cluster) same (from_cache live g))
    cached_Read id (err e) o g h = elim (Bool-cases (is_not_found e)) [
      | inl n ↦ rw n (direct_Read id e _ o g n refl (rw n at h))
      | inr n ↦ cc (rw n at h)
    ]

    pub live_Read :
        (d : Obj) (o : Option Obj)
        → (get_live K ctx d s).0 ≡ next o
        → ((get_live K ctx d s).1 ≡ s) × Read (id_of d) s.cluster o
    unfolding get_live ◌>>=◌
    live_Read d o h = cached_Read (id_of d) _ o refl h
