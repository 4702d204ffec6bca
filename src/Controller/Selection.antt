-- ===== src/Controller/Selection.antt =====
-- Which assets a reconciliation applies: the first loop of `reconcileAssets` in
-- pkg/controller/platform_controller.go.
pub mod Chosen
use virt_platform_autopilot.Prelude.{
  String, ◌==◌, Bool, true, false, Option, none, some, List, [], ◌∷◌, ◌++◌, leb, eqb, if◌then◌else◌,
}
use virt_platform_autopilot.Prelude.Maps.{Map, insert}
use virt_platform_autopilot.Kube.{Kube, ObjectId, Asset, Dependency, Result, ok, err}
use virt_platform_autopilot.Overrides.Validation.{contains}
use virt_platform_autopilot.Assets.Conditions.{Values}
use virt_platform_autopilot.Assets.Registry.{AssetMetadata, should_apply}
use virt_platform_autopilot.Util.CrdChecker.{is_crd_installed}
use virt_platform_autopilot.Engine.World.{asset_event, crd_missing}
use virt_platform_autopilot.Engine.Patcher.Prepare.{Context}
use virt_platform_autopilot.Engine.Patcher.{cleanup_excluded_asset}
use virt_platform_autopilot.Controller.Steps.{Setup, Step, ◌>>=◌, ◌>>◌, pure, emit_if}

-- `ListAssetsByReconcileOrder`; assets of one order stay in the catalog's order.
insert_asset : AssetMetadata → List AssetMetadata → List AssetMetadata
insert_asset asset [] = asset ∷ []
insert_asset asset (other ∷ others) =
    let rest = insert_asset asset others in
    if leb asset.reconcile_order other.reconcile_order then asset ∷ other ∷ others else other ∷ rest

unfoldable pub list_by_reconcile_order : List AssetMetadata → List AssetMetadata
unfolding insert_asset
list_by_reconcile_order [] = []
list_by_reconcile_order (asset ∷ assets) = insert_asset asset (list_by_reconcile_order assets)

-- The asset as the engine reads it: `NewRegistry` has resolved its policy dependency.
abbrev pub dependency_of : Option String → Option Dependency
dependency_of none = none
dependency_of (some policy) = some (record { asset = policy; policy_asset = some policy })

abbrev pub engine_asset : AssetMetadata → Asset
engine_asset asset = record { name = asset.name; policy = dependency_of asset.policy }

-- `policyAssetNames`
unfoldable pub policy_asset_names : List AssetMetadata → List String
policy_asset_names [] = []
policy_asset_names (asset ∷ assets) =
    let rest = policy_asset_names assets in
    elim asset.policy [ none ↦ rest | some policy ↦ policy ∷ rest ]

-- The local variables of the loop.
pub record Selection : Type 0 where
  pub to_reconcile : List AssetMetadata
  pub active : Map Bool
  pub policies_available : Bool

abbrev pub nothing_selected : Selection
nothing_selected = record { to_reconcile = []; active = []; policies_available = true }

abbrev pub crd_id : String → ObjectId
crd_id name = record {
  group = "apiextensions.k8s.io";
  version = "v1";
  kind = "CustomResourceDefinition";
  namespace = "";
  name = name;
}

module _ (K : Kube) (V : Values) (setup : Setup K V) where
  open K use {Obj, Cluster, Facts, read}
  open setup use {has_recorder, has_reader, now}

  abbrev answer_only : Result Obj → Result (Unit {0})
  answer_only (ok crd) = ok tt
  answer_only (err e) = err e

  -- `IsCRDInstalled`, with the API server's answer of this moment.
  unfoldable pub check_crd : String → Step K (Result Bool)
  check_crd name s =
      let (r, crds) =
        is_crd_installed s.crds now now name (answer_only (read (crd_id name) s.engine.cluster)) in
      (ok r, record s { crds = crds })

  crd_answer : AssetMetadata → Result Bool → Step K Bool
  crd_answer asset (err e) = pure false
  crd_answer asset (ok true) = pure true
  crd_answer asset (ok false) = do
    emit_if has_recorder (asset_event crd_missing asset.name)
    pure false

  -- One round of the loop over the two CRDs; an empty name asks for nothing.
  unfoldable pub crd_available : AssetMetadata → String → Step K Bool
  unfolding crd_answer
  crd_available asset name =
      if name == "" then pure true else (do answer ← check_crd name; crd_answer asset answer)

  -- `assetCRDsAvailable`
  unfoldable pub asset_crds_available : AssetMetadata → Step K Bool
  asset_crds_available asset = do
    required ← crd_available asset asset.required_crd
    if required then crd_available asset asset.gate_crd else pure false

  module _ (hco : Obj) (facts : Facts) where
    abbrev pub patcher_context : Context K
    patcher_context = record {
      hco = hco;
      facts = facts;
      has_recorder = has_recorder;
      has_reader = has_reader;
      now = now;
    }

    -- `CleanupExcludedAsset`, which returns nothing.
    unfoldable pub clean_up_asset : AssetMetadata → Step K (Unit {0})
    clean_up_asset asset s = (
      ok tt,
      record s {
        engine = (cleanup_excluded_asset K patcher_context (engine_asset asset) s.engine).1;
      },
    )

    -- What becomes of an asset whose CRDs are there.
    select_applied : List String → AssetMetadata → Selection → Result Bool → Step K Selection
    select_applied policies asset selection (err e) = pure selection
    select_applied policies asset selection (ok false) = do clean_up_asset asset; pure selection
    select_applied policies asset selection (ok true) = pure (record selection {
      active = insert selection.active asset.name true;
      to_reconcile =
          if contains policies asset.name
          then selection.to_reconcile
          else selection.to_reconcile ++ asset ∷ [];
    })

    select_checked : List String → AssetMetadata → Selection → Bool → Step K Selection
    unfolding select_applied
    select_checked policies asset selection true =
        select_applied policies asset selection (should_apply V (setup.evaluator hco facts) asset)
    select_checked policies asset selection false = do
      clean_up_asset asset
      pure (record selection {
        policies_available =
            if contains policies asset.name then false else selection.policies_available;
      })

    -- One round of the loop; the HCO's own asset, of order 0, is reconciled before.
    unfoldable pub select_asset : List String → AssetMetadata → Selection → Step K Selection
    unfolding select_checked
    select_asset policies asset selection =
        if eqb asset.reconcile_order 0 then pure selection else (do
          available ← asset_crds_available asset
          select_checked policies asset selection available)

    unfoldable pub select_each : List String → List AssetMetadata → Selection → Step K Selection
    select_each policies [] selection = pure selection
    select_each policies (asset ∷ assets) selection = do
      selected ← select_asset policies asset selection
      select_each policies assets selected

    -- The first loop of `reconcileAssets`.
    unfoldable pub select_assets : List AssetMetadata → Step K Selection
    select_assets assets = select_each (policy_asset_names assets) assets nothing_selected
