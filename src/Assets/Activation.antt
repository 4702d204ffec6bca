-- ===== src/Assets/Activation.antt =====
-- Which assets of pkg/assets/registry.go apply, and which CRDs count as opted in.
use virt_platform_autopilot.Prelude.{
  String, ◌==◌, eq_iff, ◌≡◌, ◌≢◌, ◌↔◌, ◌⊎◌, inl, inr, refl, sym, ap, ◌∙◌, Bool, true, false, ◌&&◌,
  ◌||◌, Bool-cases, Option, none, some, List, [], ◌∷◌, arith, if◌then◌else◌,
}
use virt_platform_autopilot.Prelude.Maps.{Map, lookup, lookup-insert}
use virt_platform_autopilot.Kube.{Result, ok, err}
use virt_platform_autopilot.Assets.Conditions.{
  InstallMode, always, opt_in, other_mode, AssetCondition, Values, ConditionEvaluator,
  evaluate_condition,
}
use virt_platform_autopilot.Assets.Registry.{
  AssetMetadata, all_satisfied, apply_if, apply_unconditional, should_apply, opted_in, opted_in_by,
  is_set, record_crd, record_asset, collect_states, crd_opt_in_states, depends_on,
}

or_iff : {P Q : Type 0} (a b : Bool) → (a ≡ true) ↔ P → (b ≡ true) ↔ Q → ((a || b) ≡ true) ↔ (P ⊎ Q)
or_iff true b p q = ((λ h. inl (p.0 refl)), (λ h. refl))
or_iff false true p q = ((λ h. inr (q.0 refl)), (λ h. refl))
or_iff false false p q = ((λ h. cc), λ x. elim x [ inl a ↦ cc (p.1 a) | inr a ↦ cc (q.1 a) ])

and_true : (a b : Bool) → (a && b) ≡ true → (a ≡ true) × (b ≡ true)
and_true true true h = (refl, refl)
and_true true false h = cc
and_true false b h = cc

module _ (V : Values) (e : ConditionEvaluator V) where
  abbrev pub AllHold : List AssetCondition → Type 0
  AllHold [] = Unit
  AllHold (c ∷ cs) = (evaluate_condition V e c ≡ ok true) × AllHold cs

  -- An asset without conditions is enabled unless it is opt-in, one with conditions if they all
  -- hold.
  abbrev pub Enabled : InstallMode → List AssetCondition → Type 0
  Enabled mode [] = mode ≢ opt_in
  Enabled mode (c ∷ cs) = AllHold (c ∷ cs)

  all_satisfied-AllHold : (cs : List AssetCondition) → (all_satisfied V e cs ≡ ok true) ↔ AllHold cs
  unfolding all_satisfied
  all_satisfied-AllHold [] = ((λ h. tt), (λ h. refl))
  all_satisfied-AllHold (c ∷ cs) = (
    (λ h. ground (arith, h, all_satisfied-AllHold cs)),
    (λ h. rw (all_satisfied, h.0) ((all_satisfied-AllHold cs).1 h.1)),
  )

  apply_if-Enabled :
      (mode : InstallMode) (cs : List AssetCondition)
      → (apply_if V e mode cs ≡ ok true) ↔ Enabled mode cs
  unfolding apply_if apply_unconditional
  apply_if-Enabled always [] = ((λ h e. cc), (λ h. refl))
  apply_if-Enabled opt_in [] = ((λ h. cc), (λ h. absurd (h refl)))
  apply_if-Enabled (other_mode m) [] = ((λ h e. cc), (λ h. refl))
  apply_if-Enabled mode (c ∷ cs) = all_satisfied-AllHold (c ∷ cs)

  -- ShouldApply answers true without an error exactly when the asset has no conditions and an
  -- install mode other than opt-in, or has conditions and each of them evaluates to true.
  pub should_apply-Enabled :
      (asset : AssetMetadata)
      → (should_apply V e asset ≡ ok true) ↔ Enabled asset.install asset.conditions
  unfolding should_apply
  should_apply-Enabled asset = apply_if-Enabled asset.install asset.conditions

  -- Some asset that requires the CRD, or is gated by it, is always installed or enabled.
  pub data AnyOptedIn (crd : String) : List AssetMetadata → Type 0 where
    here :
        {asset : AssetMetadata} {assets : List AssetMetadata}
        → (asset.required_crd ≡ crd) ⊎ (asset.gate_crd ≡ crd)
        → (asset.install ≡ always) ⊎ Enabled asset.install asset.conditions
        → AnyOptedIn crd (asset ∷ assets)
    later :
        {asset : AssetMetadata} {assets : List AssetMetadata}
        → AnyOptedIn crd assets
        → AnyOptedIn crd (asset ∷ assets)

  opted_in_iff :
      (asset : AssetMetadata)
      → (is_set V (opted_in V e asset) ≡ true)
        ↔ ((asset.install ≡ always) ⊎ Enabled asset.install asset.conditions)
  unfolding opted_in should_apply opted_in_by
  opted_in_iff asset =
      step asset.install (apply_if V e asset.install asset.conditions)
        (apply_if-Enabled asset.install asset.conditions)
    where
      step :
          {P : Type 0} (mode : InstallMode) (r : Result Bool)
          → (r ≡ ok true) ↔ P
          → (is_set V (opted_in_by V mode r) ≡ true) ↔ ((mode ≡ always) ⊎ P)
      step always r fg = ((λ h. inl refl), (λ h. refl))
      step opt_in (ok true) (f, g) = ((λ h. inr (f refl)), (λ h. refl))
      step opt_in (ok false) (f, g) = ((λ h. cc), λ x. elim x [ inl a ↦ cc | inr b ↦ cc (g b) ])
      step opt_in (err x) (f, g) = ((λ h. cc), λ x. elim x [ inl a ↦ cc | inr b ↦ cc (g b) ])
      step (other_mode m) (ok true) (f, g) = ((λ h. inr (f refl)), (λ h. refl))
      step (other_mode m) (ok false) (f, g) =
          ((λ h. cc), λ x. elim x [ inl a ↦ cc | inr b ↦ cc (g b) ])
      step (other_mode m) (err x) (f, g) =
          ((λ h. cc), λ x. elim x [ inl a ↦ cc | inr b ↦ cc (g b) ])

  abbrev any_enabled : String → List AssetMetadata → Bool
  any_enabled crd [] = false
  any_enabled crd (asset ∷ assets) =
      (depends_on crd asset && is_set V (opted_in V e asset)) || any_enabled crd assets

  depends_on_iff :
      (crd : String) (asset : AssetMetadata)
      → (depends_on crd asset ≡ true) ↔ ((asset.required_crd ≡ crd) ⊎ (asset.gate_crd ≡ crd))
  depends_on_iff crd asset =
      or_iff (asset.required_crd == crd) (asset.gate_crd == crd) (eq_iff asset.required_crd crd)
        (eq_iff asset.gate_crd crd)

  any_enabled-AnyOptedIn :
      (assets : List AssetMetadata) (crd : String)
      → any_enabled crd assets ≡ true
      → AnyOptedIn crd assets
  any_enabled-AnyOptedIn [] crd h = cc
  any_enabled-AnyOptedIn (asset ∷ assets) crd h =
      elim (Bool-cases (depends_on crd asset && is_set V (opted_in V e asset))) [
        | inl p ↦
            let (d, o) = and_true _ _ p in
            here ((depends_on_iff crd asset).0 d) ((opted_in_iff asset).0 o)
        | inr p ↦ later (any_enabled-AnyOptedIn assets crd (rw p at h))
      ]

  AnyOptedIn-any_enabled :
      (crd : String) {assets : List AssetMetadata}
      → AnyOptedIn crd assets
      → any_enabled crd assets ≡ true
  AnyOptedIn-any_enabled crd (here {asset} {assets} d o) =
      rw ((depends_on_iff crd asset).1 d, (opted_in_iff asset).1 o) refl
  AnyOptedIn-any_enabled crd (later {asset} {assets} h) =
      elim (Bool-cases (depends_on crd asset && is_set V (opted_in V e asset))) [
        | inl p ↦ rw p refl
        | inr p ↦ rw p (AnyOptedIn-any_enabled crd h)
      ]

  record_crd_exact :
      (b : Bool) (c crd : String) (m : Map Bool)
      → crd ≢ ""
      → is_set V (lookup (record_crd V b c m) crd) ≡ (is_set V (lookup m crd) || (c == crd && b))
  unfolding record_crd
  record_crd_exact b c crd m n = elim (Bool-cases (c == crd)) [
    | inl p ↦
        let q : c ≡ crd = (eq_iff c crd).0 p in
        ground (arith, n, q, p, eq_iff c "", lookup-insert m c crd (is_set V (lookup m c) || b))
    | inr p ↦ ground (arith, p, lookup-insert m c crd (is_set V (lookup m c) || b))
  ]

  record_asset_exact :
      (o : Option Bool) (asset : AssetMetadata) (crd : String) (m : Map Bool)
      → crd ≢ ""
      → is_set V (lookup (record_asset V o asset m) crd)
        ≡ (is_set V (lookup m crd) || (depends_on crd asset && is_set V o))
  unfolding record_asset
  record_asset_exact none asset crd m n = ground arith
  record_asset_exact (some b) asset crd m n = ground (
    arith,
    record_crd_exact b asset.gate_crd crd (record_crd V b asset.required_crd m) n,
    record_crd_exact b asset.required_crd crd m n,
  )

  no_crd : (c crd : String) → crd ≢ "" → (c == "") ≡ true → (c == crd) ≡ false
  no_crd c crd n h = ground (arith, n, eq_iff c "", eq_iff c crd)

  abbrev added : AssetMetadata → Map Bool → Map Bool
  added asset m =
      if asset.required_crd == "" && asset.gate_crd == ""
      then m
      else record_asset V (opted_in V e asset) asset m

  added_exact :
      (asset : AssetMetadata) (crd : String) (m : Map Bool)
      → crd ≢ ""
      → is_set V (lookup (added asset m) crd)
        ≡ (is_set V (lookup m crd) || (depends_on crd asset && is_set V (opted_in V e asset)))
  added_exact asset crd m n = ground (
    arith,
    record_asset_exact (opted_in V e asset) asset crd m n,
    no_crd asset.required_crd crd n,
    no_crd asset.gate_crd crd n,
  )

  or_assoc : (a b c : Bool) → ((a || b) || c) ≡ (a || (b || c))
  or_assoc true b c = refl
  or_assoc false b c = refl

  collect_states_exact :
      (assets : List AssetMetadata) (crd : String) (m : Map Bool)
      → crd ≢ ""
      → is_set V (lookup (collect_states V e assets m) crd)
        ≡ (is_set V (lookup m crd) || any_enabled crd assets)
  unfolding collect_states
  collect_states_exact [] crd m n = ground arith
  collect_states_exact (asset ∷ assets) crd m n =
      collect_states_exact assets crd (added asset m) n
      ∙ ap (λ b. b || any_enabled crd assets) (added_exact asset crd m n)
      ∙ or_assoc (is_set V (lookup m crd)) (depends_on crd asset && is_set V (opted_in V e asset))
          (any_enabled crd assets)

  -- A CRD with a name that is not empty is opted in by CRDOptInStates exactly when an asset that
  -- requires it, or is gated by it, is always installed, or has conditions that all evaluate to
  -- true, or has no conditions and an install mode other than opt-in.
  pub crd_opt_in_states_exact :
      (assets : List AssetMetadata) (crd : String)
      → crd ≢ ""
      → (is_set V (lookup (crd_opt_in_states V e assets) crd) ≡ true) ↔ AnyOptedIn crd assets
  unfolding crd_opt_in_states lookup
  crd_opt_in_states_exact assets crd n =
      let q = collect_states_exact assets crd [] n in
      (
        (λ h. any_enabled-AnyOptedIn assets crd (sym q ∙ h)),
        (λ h. q ∙ AnyOptedIn-any_enabled crd h),
      )
