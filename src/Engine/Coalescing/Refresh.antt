-- ===== src/Engine/Coalescing/Refresh.antt =====
-- The staging clock of machineconfig_coalescing.go: since when a staged update waits.
use virt_platform_autopilot.Prelude.{
  ℕ, String, ◌==◌, eq_iff, ◌≡◌, refl, ap, ◌∙◌, Bool, true, false, Bool-cases, inl, inr, Option,
  none, some, List, [], ◌∷◌, if◌then◌else◌,
}
use virt_platform_autopilot.Prelude.Maps.{lookup, lookup-insert_self}
use virt_platform_autopilot.Kube.{Kube, Stage}
use virt_platform_autopilot.Engine.World.{update_staged, pools_event}
use virt_platform_autopilot.Engine.Flow.{State, next, emit_if}
use virt_platform_autopilot.Engine.Flow.Triple.{
  Triple, Triple-bind, Triple-any, Triple-pure, Triple-modify,
}
use virt_platform_autopilot.Engine.Coalescing.Staging.{stage_update}
use virt_platform_autopilot.Engine.Coalescing.{same_names, restage, refresh_stage, hco_namespace}

same_names_eq : (as_ bs : List String) → same_names as_ bs ≡ true → as_ ≡ bs
unfolding same_names
same_names_eq [] [] e = refl
same_names_eq [] (b ∷ bs) e = cc
same_names_eq (a ∷ as_) [] e = cc
same_names_eq (a ∷ as_) (b ∷ bs) e = elim (Bool-cases (a == b)) [
  | inl p ↦
      let q : same_names as_ bs ≡ true = (rw p at e) in
      let h : a ≡ b = (eq_iff a b).0 p in let t : as_ ≡ bs = same_names_eq as_ bs q in cc
  | inr p ↦ cc (rw p at e)
]

module _ (K : Kube) (has_recorder : Bool) (now : ℕ) (hco : Kube.Obj K) where
  open K use {Obj, id_of, print_stage}

  -- The time since which an update of this hash waits.
  abbrev pub waits_since : String → Option Stage → ℕ
  waits_since hash none = now
  waits_since hash (some stage) = if stage.desired_hash == hash then stage.staged_at else now

  abbrev pub staged_as : String → List String → Option Stage → Stage
  staged_as hash names stored = record {
    staged_at = waits_since hash stored;
    desired_hash = hash;
    matching_pools = names;
  }

  -- The mirror holds this stage under the name.
  abbrev pub Records : String → Stage → State K → Type 0
  Records name stage s = lookup s.staging.entries name ≡ some stage

  stage_update-Records :
      (P : State K → Type 0) (namespace name : String) (stage : Stage)
      → Triple P (stage_update K namespace name stage hco) (λ u. Records name stage)
  unfolding stage_update
  stage_update-Records P namespace name stage = Triple-bind (Triple-any _) λ u.
      Triple-bind (Triple-any _)
        λ u. Triple-modify _ (λ s p. lookup-insert_self s.staging.entries name stage)

  emit_if-Records :
      (name : String) (stage : Stage) (b : Bool) (pools : List String)
      → Triple
          (Records name stage)
          (emit_if {K = K} b (pools_event update_staged name pools))
          (λ u. Records name stage)
  emit_if-Records name stage true pools = record { at = λ s p a e. p }
  emit_if-Records name stage false pools = record { at = λ s p a e. p }

  abbrev pub Refreshed : String → Stage → Stage → State K → Type 0
  Refreshed name expected stage s = (stage ≡ expected) × Records name expected s

  restage-Refreshed :
      (P : State K → Type 0) (name hash : String) (names : List String)
      → Triple P
          (restage K has_recorder now hco name hash names)
          (Refreshed name (staged_as hash names none))
  unfolding restage
  restage-Refreshed P name hash names =
      Triple-bind (stage_update-Records P (hco_namespace K has_recorder now hco) name _) λ u.
        Triple-bind (emit_if-Records name _ has_recorder names)
          λ u. Triple-pure _ (λ s p. (refl, p))

  abbrev pub Stored : String → Option Stage → State K → Type 0
  Stored name stored s = lookup s.staging.entries name ≡ stored

  known :
      (stage : Stage) (hash : String) (names : List String)
      → (stage.desired_hash == hash) ≡ true
      → stage.matching_pools ≡ names
      → stage ≡ record { staged_at = stage.staged_at; desired_hash = hash; matching_pools = names }
  known stage hash names p q =
      let e : stage.desired_hash ≡ hash = (eq_iff stage.desired_hash hash).0 p in cc

  both :
      {stage expected : Stage} (name : String) (s : State K)
      → stage ≡ expected
      → lookup s.staging.entries name ≡ some stage
      → Refreshed name expected stage s
  both name s e r = (e, r ∙ ap some e)

  pub refresh_stage-Refreshed :
      (name hash : String) (names : List String) (stored : Option Stage)
      → Triple
          (Stored name stored)
          (refresh_stage K has_recorder now hco name hash names stored)
          (Refreshed name (staged_as hash names stored))
  unfolding refresh_stage
  refresh_stage-Refreshed name hash names none = restage-Refreshed _ name hash names
  refresh_stage-Refreshed name hash names (some stage) =
      elim (Bool-cases (stage.desired_hash == hash)) [
        | inr p ↦ rw p (restage-Refreshed _ name hash names)
        | inl p ↦ elim (Bool-cases (same_names stage.matching_pools names)) [
          | inl q ↦
              rw (p, q)
                (Triple-pure stage (λ s r.
                  both name s
                    (known stage hash names p (same_names_eq stage.matching_pools names q)) r))
          | inr q ↦
              rw (p, q)
                (Triple-bind
                  (stage_update-Records _ (hco_namespace K has_recorder now hco) name
                    (record stage { matching_pools = names }))
                  λ u. Triple-pure _ (λ s r.
                    both name s (known (record stage { matching_pools = names }) hash names p refl)
                      r))
        ]
      ]

  -- A refresh that goes on, given the stage that the mirror holds, returns a stage with the
  -- current hash and pools, which waits since the stored one if its hash is the same and since
  -- now if not, and the mirror holds that stage.
  pub refresh_stage_exact :
      (name hash : String) (names : List String) (stored : Option Stage) (s : State K)
      (stage : Stage)
      → lookup s.staging.entries name ≡ stored
      → (refresh_stage K has_recorder now hco name hash names stored s).0 ≡ next stage
      → (stage ≡ staged_as hash names stored)
        × (lookup
              (refresh_stage K has_recorder now hco name hash names stored s).1.staging.entries
              name
            ≡ some (staged_as hash names stored))
  refresh_stage_exact name hash names stored s stage p e =
      (refresh_stage-Refreshed name hash names stored).at s p stage e
