-- ===== src/Controller/Assets.antt =====
-- The parts of a reconciliation in pkg/controller/platform_controller.go: the HCO's golden configuration, the
-- dependency metrics, and the assets in their order.
use Prim.Native.String.{◌++◌}
use virt_platform_autopilot.Prelude.{
  String, Bool, true, false, not, ◌&&◌, none, some, List, [], ◌∷◌, map, if◌then◌else◌,
}
use virt_platform_autopilot.Prelude.Text.{cut}
use virt_platform_autopilot.Prelude.Maps.{Map}
use virt_platform_autopilot.Kube.{Kube, Error, message, wrap, Result, ok, err}
use virt_platform_autopilot.Assets.Conditions.{Values}
use virt_platform_autopilot.Assets.Registry.{AssetMetadata, get_asset, crd_opt_in_states}
use virt_platform_autopilot.Engine.World.{set_dependency, event, reconcile_succeeded}
use virt_platform_autopilot.Engine.Flow.{Flow, next, stop, fail}
use virt_platform_autopilot.Engine.Patcher.{reconcile_asset, reconcile_assets}
use virt_platform_autopilot.Engine.NodeDisruption.Reconcile.{reconcile_policies}
use virt_platform_autopilot.Controller.Steps.{
  Setup, Step, ◌>>=◌, ◌>>◌, pure, raise, reads, context, engine_call, emit, emit_if,
}
use virt_platform_autopilot.Controller.Selection.{
  list_by_reconcile_order, engine_asset, Selection, check_crd, patcher_context, select_assets,
}

-- What a call of the patcher returns: `pure` answers, and its error.
abbrev pub flow_result {ℓ} : {A : Type ℓ} → Flow A → A → Result A
flow_result (next a) b = ok a
flow_result (stop x) b = ok b
flow_result (fail e) b = err e

module _ (K : Kube) (V : Values) (setup : Setup K V) where
  open K use {Obj, Cluster, Facts, id_of}
  open setup use {assets, build, evaluator, has_recorder}

  flatten : {A : Type 0} → Result A → Step K A
  flatten (ok a) = pure a
  flatten (err e) = raise e

  -- `reconcileHCO`
  unfoldable pub reconcile_hco : Obj → Step K (Unit {0})
  unfolding flatten
  reconcile_hco hco = do
    asset ← context "failed to get HCO asset" (reads (λ c. get_asset assets "hco-golden-config"))
    facts ← context "failed to build context for HCO" (reads (build hco))
    result ←
        engine_call (reconcile_asset K (patcher_context K V setup hco facts) (engine_asset asset))
    applied ← context "failed to reconcile HCO" (flatten result)
    pure tt

  -- `ReportDependencyMetric`; the kind that the metric carries is a function of the plural.
  unfoldable pub report_dependency_metric : String → Bool → Bool → Step K (Unit {0})
  report_dependency_metric crd missing opted_in = elim (cut b'.' crd) [
    | none ↦ pure tt
    | some parts ↦ emit (set_dependency parts.1 parts.0 missing opted_in)
  ]

  report_dependency : String → Bool → Result Bool → Step K (List Error)
  unfolding report_dependency_metric
  report_dependency crd opted_in (err e) = pure (wrap ("check CRD availability: " ++ crd) e ∷ [])
  report_dependency crd opted_in (ok installed) = do
    report_dependency_metric crd (not installed) opted_in
    pure []

  report_each : Map Bool → Step K (List Error)
  unfolding report_dependency
  report_each [] = pure []
  report_each ((crd, opted_in) ∷ states) = do
    installed ← check_crd K V setup crd
    errors ← report_dependency crd opted_in installed
    rest ← report_each states
    pure (append errors rest)
    where
      append : List Error → List Error → List Error
      append [] es = es
      append (e ∷ es) fs = e ∷ append es fs

  -- `reconcileDependencyMetrics`: the errors are kept, and joined.
  unfoldable pub reconcile_dependency_metrics : Obj → Facts → Step K (List Error)
  unfolding report_each
  reconcile_dependency_metrics hco facts =
      report_each (crd_opt_in_states V (evaluator hco facts) assets)

  no_failures : List (String × Error) → Bool
  no_failures [] = true
  no_failures (failure ∷ failures) = false

  assets_result : Bool → List (String × Error) → Result Bool
  assets_result managed [] = ok managed
  assets_result managed (failure ∷ failures) = err (message "failed to reconcile assets")

  -- The policies, unless a policy asset's API is missing.
  reconcile_selected_policies : Obj → Facts → List AssetMetadata → Bool → Selection → Step K Bool
  unfolding flatten
  reconcile_selected_policies hco facts sorted prune selection =
      if selection.policies_available
      then (do
        flow ←
            engine_call
              (reconcile_policies K hco facts (map engine_asset sorted) selection.active prune)
        answer ←
            context "reconcile node disruption policies" (flatten (flow_result flow (false, 0)))
        pure answer.0)
      else pure false

  -- `reconcileAssets`: the aggregate policy, then the selected assets; whether the policy is managed.
  unfoldable pub reconcile_all : Obj → Facts → Bool → Step K Bool
  unfolding reconcile_selected_policies flatten assets_result no_failures
  reconcile_all hco facts prune_tombstone_actions = do
    let sorted = list_by_reconcile_order assets
    selection ← select_assets K V setup hco facts sorted
    managed ← reconcile_selected_policies hco facts sorted prune_tombstone_actions selection
    failures ← engine_call (λ s.
        let (n, failures, s') =
          reconcile_assets K (patcher_context K V setup hco facts)
            (map engine_asset selection.to_reconcile) s in
        (failures, s'))
    emit_if (has_recorder && no_failures failures) (event reconcile_succeeded (id_of hco))
    flatten (assets_result managed failures)
