-- ===== src/Engine/Coalescing/Pools/Reported.antt =====
-- When the conditions that `MachineConfigPoolRolloutConditions` collects make a pool release a staged update.
use mathlib.Core.Bool.{false≢true}
use mathlib.Core.Path.{subst}
use virt_platform_autopilot.Prelude.{
  String, ◌==◌, eq_iff, ◌≡◌, ◌≢◌, ◌↔◌, ◌⊎◌, inl, inr, refl, sym, ap, ◌∙◌, Bool, true, false, ◌||◌,
  Bool-cases, Option, none, some, List, [], ◌∷◌, if◌then◌else◌,
}
use virt_platform_autopilot.Prelude.Maps.{Map, lookup, insert, lookup-insert}
use virt_platform_autopilot.Kube.{Kube, Error, Result, ok, err}
use virt_platform_autopilot.Overrides.Validation.{contains}
use virt_platform_autopilot.Engine.Coalescing.Pools.{
  rollout_condition_types, or_empty, text_of, add_condition, collect_conditions, rollout_conditions,
  releases_staged_update,
}
use virt_platform_autopilot.Engine.Coalescing.Pools.Releases.{
  Says, OfType, NoneOfType, IsTrue, LastTrue, Reports, Releases,
}

same_list_of : {A : Type 0} {xs ys : List A} → ok (some xs) ≡ ok (some ys) → xs ≡ ys
same_list_of h = cc

pub either : (a b : Bool) → (a || b) ≡ true → (a ≡ true) ⊎ (b ≡ true)
either true b h = inl refl
either false b h = inr h

pub or_true : (a : Bool) {b : Bool} → b ≡ true → (a || b) ≡ true
or_true true h = refl
or_true false h = h

module _ (K : Kube) where
  open K use {Obj, Value, object, as_map, as_string, nested_slice}

  abbrev field : Map Value → String → String
  field condition name = text_of K (lookup condition name)

  text-Says :
      (condition : Map Value) (name text : String)
      → text ≢ ""
      → (field condition name ≡ text) ↔ Says K condition name text
  unfolding text_of
  text-Says condition name text n = found (lookup condition name) refl
    where
      spelled :
          (v : Value) (o : Option String)
          → lookup condition name ≡ some v
          → as_string v ≡ o
          → (or_empty o ≡ text) ↔ Says K condition name text
      spelled v none e f = ((λ h. absurd (n (sym h))), λ (x, a, b). absurd (differ v x e f a b))
        where
          differ :
              (v x : Value)
              → lookup condition name ≡ some v
              → as_string v ≡ none
              → lookup condition name ≡ some x
              → as_string x ≡ some text
              → ⊥
          differ v x e f a b = let q : v ≡ x = cc in cc
      spelled v (some s) e f = ((λ h. (v, e, f ∙ ap some h)), λ (x, a, b). let q : v ≡ x = cc in cc)

      found :
          (o : Option Value)
          → lookup condition name ≡ o
          → (text_of K o ≡ text) ↔ Says K condition name text
      found none e = ((λ h. absurd (n (sym h))), λ (x, a, b). cc)
      found (some v) e = spelled v (as_string v) e refl

  -- What the collected conditions say of one type.
  abbrev status : String → Map String → String
  status t m = or_empty (lookup m t)

  insert_status :
      (t a s : String) (m : Map String)
      → contains rollout_condition_types t ≡ true
      → status t (if contains rollout_condition_types a then insert m a s else m)
        ≡ (if a == t then s else status t m)
  insert_status t a s m k = elim (Bool-cases (a == t)) [
    | inl e ↦
        let q : a ≡ t = (eq_iff a t).0 e in
        rw (e, q, k, lookup-insert m t t s, (eq_iff t t).1 refl) refl
    | inr e ↦ elim (Bool-cases (contains rollout_condition_types a)) [
      | inl c ↦ rw (e, c, lookup-insert m a t s, e) refl
      | inr c ↦ rw (e, c) refl
    ]
  ]

  module _ (t : String) (n : t ≢ "") (k : contains rollout_condition_types t ≡ true) where
    -- What one condition adds.
    data Added (v : Value) (m : Map String) : Type 0 where
      of_type :
          (condition : Map Value)
          → as_map v ≡ some condition
          → Says K condition "type" t
          → status t (add_condition K (as_map v) m) ≡ field condition "status"
          → Added v m
      other :
          (¬ OfType K t (as_map v))
          → status t (add_condition K (as_map v) m) ≡ status t m
          → Added v m

    add-Added : (v : Value) (m : Map String) → Added v m
    unfolding add_condition
    add-Added v m = found (as_map v) refl
      where
        found : (o : Option (Map Value)) → as_map v ≡ o → Added v m
        found none e = other (rw e (λ x. x)) (rw e refl)
        found (some condition) e = elim (Bool-cases (field condition "type" == t)) [
          | inl p ↦
              of_type condition e
                ((text-Says condition "type" t n).0 ((eq_iff (field condition "type") t).0 p))
                (rw e (
                  insert_status t (field condition "type") (field condition "status") m k
                  ∙ rw p refl))
          | inr p ↦
              other
                (rw e (λ s. false≢true (
                  sym p
                  ∙ (eq_iff (field condition "type") t).1 ((text-Says condition "type" t n).1 s))))
                (rw e (
                  insert_status t (field condition "type") (field condition "status") m k
                  ∙ rw p refl))
        ]

    of_true : (o : Option (Map Value)) → IsTrue K t o → OfType K t o
    of_true none p = p
    of_true (some condition) p = p.0

    is_true :
        {o : Option (Map Value)} {condition : Map Value}
        → o ≡ some condition
        → IsTrue K t o
        → Says K condition "type" t × Says K condition "status" "True"
    is_true e p = subst (IsTrue K t) e p

    collect-LastTrue :
        (vs : List Value) (m : Map String)
        → (status t (collect_conditions K vs m) ≡ "True")
          ↔ (LastTrue K t vs ⊎ (NoneOfType K t vs × (status t m ≡ "True")))
    unfolding collect_conditions
    collect-LastTrue [] m = ((λ h. inr (tt, h)), λ x. elim x [ inl l ↦ absurd l | inr p ↦ p.1 ])
    collect-LastTrue (v ∷ vs) m =
        step (add-Added v m) (collect-LastTrue vs (add_condition K (as_map v) m))
      where
        step :
            Added v m
            → (status t (collect_conditions K vs (add_condition K (as_map v) m)) ≡ "True") ↔ (
                LastTrue K t vs
                ⊎ (NoneOfType K t vs × (status t (add_condition K (as_map v) m) ≡ "True")))
            → (status t (collect_conditions K vs (add_condition K (as_map v) m)) ≡ "True")
              ↔ (LastTrue K t (v ∷ vs) ⊎ (NoneOfType K t (v ∷ vs) × (status t m ≡ "True")))
        step (of_type c e ty q) (f, g) = (
          (λ h. elim (f h) [
            | inl l ↦ inl (inl l)
            | inr p ↦
                inl (inr (rw e (ty, (text-Says c "status" "True" (λ x. cc)).0 (sym q ∙ p.1)), p.0))
          ]),
          λ x. elim x [
            | inl l ↦ elim l [
              | inl l ↦ g (inl l)
              | inr w ↦
                  g (inr (w.1, q ∙ (text-Says c "status" "True" (λ x. cc)).1 (is_true e w.0).1))
            ]
            | inr p ↦ absurd (p.0.0 (rw e ty))
          ],
        )
        step (other not_of q) (f, g) = (
          (λ h. elim (f h) [ inl l ↦ inl (inl l) | inr p ↦ inr ((not_of, p.0), sym q ∙ p.1) ]),
          λ x. elim x [
            | inl l ↦ elim l [
              | inl l ↦ g (inl l)
              | inr w ↦ absurd (not_of (of_true (as_map v) w.0))
            ]
            | inr p ↦ g (inr (p.0.1, q ∙ p.1))
          ],
        )

    empty_status : status t [] ≡ "True" → ⊥
    unfolding lookup
    empty_status h = cc

    rollout_conditions-Reports :
        (pool : Obj) → (status t (rollout_conditions K pool) ≡ "True") ↔ Reports K t pool
    unfolding rollout_conditions lookup
    rollout_conditions-Reports pool =
        found (nested_slice (object pool) ("status" ∷ "conditions" ∷ [])) refl
      where
        found :
            (r : Result (Option (List Value)))
            → nested_slice (object pool) ("status" ∷ "conditions" ∷ []) ≡ r
            → (status t (elim r [
              | err e ↦ []
              | ok none ↦ []
              | ok (some conditions) ↦ collect_conditions K conditions []
            ])
                ≡ "True")
              ↔ Reports K t pool
        found (err e) q =
            ((λ h. absurd (empty_status h)), λ r. absurd (differ (sym q ∙ r.has_conditions)))
          where
            differ : {e : Error} {x : Option (List Value)} → err e ≡ ok x → ⊥
            differ h = cc
        found (ok none) q =
            ((λ h. absurd (empty_status h)), λ r. absurd (differ (sym q ∙ r.has_conditions)))
          where
            differ : {vs : List Value} → ok none ≡ ok (some vs) → ⊥
            differ h = cc
        found (ok (some cs)) q = (
          (λ h. elim ((collect-LastTrue cs []).0 h) [
            | inl l ↦ record { conditions = cs; has_conditions = q; last = l }
            | inr p ↦ absurd (empty_status p.1)
          ]),
          λ r.
              let same : r.conditions ≡ cs = same_list_of (sym r.has_conditions ∙ q) in
              (collect-LastTrue cs []).1 (inl (subst (LastTrue K t) same r.last)),
        )

  -- A pool releases a staged update exactly when the last condition of one of the two types that it
  -- reports is true.
  pub releases_staged_update-Releases :
      (pool : Obj) → (releases_staged_update K pool ≡ true) ↔ Releases K pool
  unfolding releases_staged_update contains
  releases_staged_update-Releases pool =
      let degraded = rollout_conditions-Reports "RenderDegraded" (λ x. cc) refl pool in
      let updating = rollout_conditions-Reports "Updating" (λ x. cc) refl pool in
      (
        (λ h. elim (either _ _ h) [
          | inl p ↦ inl (degraded.0 ((eq_iff _ "True").0 p))
          | inr p ↦ inr (updating.0 ((eq_iff _ "True").0 p))
        ]),
        λ x. elim x [
          | inl p ↦ rw ((eq_iff _ "True").1 (degraded.1 p)) refl
          | inr p ↦ or_true _ ((eq_iff _ "True").1 (updating.1 p))
        ],
      )
