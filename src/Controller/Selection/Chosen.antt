-- ===== src/Controller/Selection/Chosen.antt =====
-- What the first loop of `reconcileAssets` in pkg/controller/platform_controller.go hands to the patcher.
use virt_platform_autopilot.Prelude.{
  ◌≡◌, refl, inl, inr, Bool, true, false, Bool-cases, List, [], ◌∷◌, ◌++◌, eqb, String,
}
use virt_platform_autopilot.Kube.{Kube, Result, ok, err}
use virt_platform_autopilot.Overrides.Validation.{contains}
use virt_platform_autopilot.Assets.Conditions.{Values}
use virt_platform_autopilot.Assets.Registry.{AssetMetadata, should_apply}
use virt_platform_autopilot.Controller.Steps.{Setup, Platform, ◌>>=◌}
use virt_platform_autopilot.Controller.Steps.Runs.{bind_ok}
use virt_platform_autopilot.Controller.Selection.{
  policy_asset_names, Selection, nothing_selected, asset_crds_available, clean_up_asset,
  select_applied, select_checked, select_asset, select_each, select_assets,
}

module _ (K : Kube) (V : Values) (setup : Setup K V) (hco : Kube.Obj K) (facts : Kube.Facts K) where
  -- Not the HCO's own asset, no policy asset, and its conditions hold.
  pub record Chosen (policies : List String) (asset : AssetMetadata) : Type 0 where
    pub later_order : eqb asset.reconcile_order 0 ≡ false
    pub no_policy : contains policies asset.name ≡ false
    pub applies : should_apply V (setup.evaluator hco facts) asset ≡ ok true

  abbrev pub AllChosen : List String → List AssetMetadata → Type 0
  AllChosen policies [] = Unit
  AllChosen policies (asset ∷ assets) = Chosen policies asset × AllChosen policies assets

  append-AllChosen :
      (policies : List String) (assets : List AssetMetadata) (asset : AssetMetadata)
      → AllChosen policies assets
      → Chosen policies asset
      → AllChosen policies (assets ++ asset ∷ [])
  append-AllChosen policies [] asset p c = (c, tt)
  append-AllChosen policies (x ∷ xs) asset (q, p) c = (q, append-AllChosen policies xs asset p c)

  same_selection :
      {a b : Selection} (policies : List String)
      → ok a ≡ ok b
      → AllChosen policies a.to_reconcile
      → AllChosen policies b.to_reconcile
  same_selection {a} {b} policies e p = let f : a ≡ b = cc in rw (← f) p

  applied_chosen :
      (policies : List String) (asset : AssetMetadata) (a b : Selection) (r : Result Bool)
      (s : Platform K)
      → eqb asset.reconcile_order 0 ≡ false
      → should_apply V (setup.evaluator hco facts) asset ≡ r
      → (select_applied K V setup hco facts policies asset a r s).0 ≡ ok b
      → AllChosen policies a.to_reconcile
      → AllChosen policies b.to_reconcile
  unfolding select_applied clean_up_asset ◌>>=◌
  applied_chosen policies asset a b (err e) s o q h p = same_selection policies h p
  applied_chosen policies asset a b (ok false) s o q h p = same_selection policies h p
  applied_chosen policies asset a b (ok true) s o q h p =
      elim (Bool-cases (contains policies asset.name)) [
        | inl c ↦ same_selection policies (rw c at h) p
        | inr c ↦ same_selection policies (rw c at h) (
            append-AllChosen policies a.to_reconcile asset p
              (record { later_order = o; no_policy = c; applies = q }))
      ]

  checked_chosen :
      (policies : List String) (asset : AssetMetadata) (a b : Selection) (available : Bool)
      (s : Platform K)
      → eqb asset.reconcile_order 0 ≡ false
      → (select_checked K V setup hco facts policies asset a available s).0 ≡ ok b
      → AllChosen policies a.to_reconcile
      → AllChosen policies b.to_reconcile
  unfolding select_checked clean_up_asset ◌>>=◌
  checked_chosen policies asset a b true s o h p = applied_chosen policies asset a b _ s o refl h p
  checked_chosen policies asset a b false s o h p = same_selection policies h p

  asset_chosen :
      (policies : List String) (asset : AssetMetadata) (a b : Selection) (s : Platform K)
      → (select_asset K V setup hco facts policies asset a s).0 ≡ ok b
      → AllChosen policies a.to_reconcile
      → AllChosen policies b.to_reconcile
  unfolding select_asset
  asset_chosen policies asset a b s h p = elim (Bool-cases (eqb asset.reconcile_order 0)) [
    | inl z ↦ same_selection policies (rw z at h) p
    | inr o ↦
        let (available, e, f) = bind_ok (asset_crds_available K V setup asset) _ s b (rw o at h) in
        checked_chosen policies asset a b available _ o f p
  ]

  each_chosen :
      (policies : List String) (assets : List AssetMetadata) (a b : Selection) (s : Platform K)
      → (select_each K V setup hco facts policies assets a s).0 ≡ ok b
      → AllChosen policies a.to_reconcile
      → AllChosen policies b.to_reconcile
  unfolding select_each
  each_chosen policies [] a b s h p = same_selection policies h p
  each_chosen policies (asset ∷ assets) a b s h p =
      let (c, e, f) = bind_ok (select_asset K V setup hco facts policies asset a) _ s b h in
      each_chosen policies assets c b _ f (asset_chosen policies asset a c s e p)

  -- When the selection of the assets succeeds, each asset that it hands to the patcher has a
  -- reconcile order other than 0, is no policy asset of the catalog, and has conditions that let
  -- it apply.
  pub select_assets-AllChosen :
      (assets : List AssetMetadata) (selection : Selection) (s : Platform K)
      → (select_assets K V setup hco facts assets s).0 ≡ ok selection
      → AllChosen (policy_asset_names assets) selection.to_reconcile
  unfolding select_assets
  select_assets-AllChosen assets selection s h =
      each_chosen (policy_asset_names assets) assets nothing_selected selection s h tt
