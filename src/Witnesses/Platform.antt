-- ===== src/Witnesses/Platform.antt =====
-- Concrete runs of the controller, the CRD checker and the detection of the topology, and of the patcher under a
-- node disruption policy.
use virt_platform_autopilot.Prelude.{
  ◌≡◌, ◌≢◌, ◌↔◌, refl, ap, true, false, some, List, [], ◌∷◌, arith, length,
}
use virt_platform_autopilot.Prelude.Maps.{lookup, insert, delete}
use virt_platform_autopilot.Kube.{Asset, Dependency, ok, err, api, not_found}
use virt_platform_autopilot.Throttling.TokenBucket.{allow, record_update}
use virt_platform_autopilot.Throttling.ThrashingDetector.{record_success}
use virt_platform_autopilot.Engine.Flow.{◌>>=◌}
use virt_platform_autopilot.Engine.Flow.Silent.{applies}
use virt_platform_autopilot.Engine.Applier
use virt_platform_autopilot.Engine.Applier.{
  get_direct, ensure_managed_by_label, has_managed_by_label,
}
use virt_platform_autopilot.Engine.Coalescing.{clear_staging}
use virt_platform_autopilot.Engine.Coalescing.Pools.{is_machine_config}
use virt_platform_autopilot.Engine.Patcher.Prepare.{
  Context, render_asset, check_exclusion, check_policy, get_live,
}
use virt_platform_autopilot.Engine.Patcher.Customize.{
  check_paused, reset_thrashing, clear_customizations, check_unmanaged, apply_user_patch,
  hash_update, mask_fields,
}
use virt_platform_autopilot.Engine.Patcher.Enforce.{
  normalize, check_drift, check_coalescing, check_namespace, pass_gate, apply_desired,
  conclude_applied,
}
use virt_platform_autopilot.Engine.Patcher.{
  reconcile_asset, reconcile_action, manage, customize, enforce,
}
use virt_platform_autopilot.Engine.Patcher.Barrier.{AppliedReady, reconcile_asset_behind_policy}
use virt_platform_autopilot.Engine.Tombstone.{
  reconcile_tombstones_matching, process_tombstones, reconcile_tombstone,
  is_machine_config_tombstone_metadata,
}
use virt_platform_autopilot.Util.CrdChecker.{new_crd_checker}
use virt_platform_autopilot.Util.CrdChecker.Replay.{Call, check, invalidate, run, replay}
use virt_platform_autopilot.Util.CrdChecker.Refinement.{new_crd_checker-replay}
use virt_platform_autopilot.Controller.Steps.{Setup, Platform}
use virt_platform_autopilot.Controller.Assets.{reconcile_dependency_metrics, reconcile_all}
use virt_platform_autopilot.Controller.Reconcile.{
  reconcile_platform, before_release, release, check_actions, run_tombstones, verdict, follow,
}
use virt_platform_autopilot.Controller.Reconcile.Barrier.{Released, reconcile_platform-Released}
use virt_platform_autopilot.Controller.Context.{
  Node, has_master_role, detect_hardware, node_topology,
}
use virt_platform_autopilot.Controller.Context.Detection.{
  any_node, AllCompact, is_compact_iff, hardware_of, detect_hardware-hardware_of,
}
use virt_platform_autopilot.Prelude.Text.{trim_space}
use virt_platform_autopilot.Controller.Steps
use virt_platform_autopilot.Overrides.Validation.{contains}
use virt_platform_autopilot.Assets.Conditions.{evaluate_condition}
use virt_platform_autopilot.Controller.Selection.Chosen.{AllChosen, select_assets-AllChosen}
use virt_platform_autopilot.Controller.Selection.{
  Selection, select_asset, asset_crds_available, crd_available, select_assets, select_each,
  list_by_reconcile_order, policy_asset_names,
}
use virt_platform_autopilot.Assets.Registry.{
  AssetMetadata, should_apply, apply_if, apply_unconditional, all_satisfied, crd_opt_in_states,
  collect_states,
}
use virt_platform_autopilot.Engine.Exclusion.{parse_disabled_resources, is_resource_excluded}
use virt_platform_autopilot.Engine.NodeDisruption.Aggregate.{
  aggregate_policies, aggregate_entries, merge_assets, exclusion_rules, has_entries, aggregate_of,
  sorted_entries,
}
use virt_platform_autopilot.Engine.NodeDisruption.Reconcile.{
  reconcile_policies, reconcile_aggregate,
}
use virt_platform_autopilot.Engine.Patcher.{reconcile_assets, reconcile_each}
use virt_platform_autopilot.Engine.Tombstone.Policies.{tombstones_have_effective_policy}
use virt_platform_autopilot.Throttling.TokenBucket.{cleanup_stale}
use virt_platform_autopilot.Witnesses.Documents.{documents, policy_document, live_policy}
use virt_platform_autopilot.Witnesses.Policies.{begin, ready, dependent, retired}
use virt_platform_autopilot.Witnesses.Catalog.{policy_asset, config_asset, flags, evaluator}

abbrev calm : Context documents
calm = record { hco = policy_document; facts = tt; has_recorder = true; has_reader = true; now = 5 }

abbrev asset : Asset
asset = dependent

abbrev dependency : Dependency
dependency = record { asset = "policy"; policy_asset = some "policy" }

applied : applies (reconcile_asset documents calm asset (begin (live_policy ∷ []))).1.trace ≡ 1
unfolding reconcile_asset reconcile_action manage customize enforce ◌>>=◌ get_direct
    ensure_managed_by_label has_managed_by_label clear_staging is_machine_config render_asset
    check_exclusion check_policy get_live check_paused reset_thrashing clear_customizations
    check_unmanaged apply_user_patch hash_update mask_fields normalize check_drift check_coalescing
    check_namespace pass_gate apply_desired conclude_applied lookup record_update allow insert
    delete Applier.apply record_success
applied = rw ready refl

reconcile_asset_behind_policy_example :
    AppliedReady documents calm asset dependency (begin (live_policy ∷ []))
reconcile_asset_behind_policy_example =
    reconcile_asset_behind_policy documents calm asset dependency (begin (live_policy ∷ [])) refl
      (omega (arith, applied))

-- A CRD is missing, is asked for again from the cache, and again after an invalidation.
abbrev calls : List Call
calls =
    check 1 2 "a.b" (err (api (not_found "none")))
    ∷ check 3 4 "a.b" (ok tt)
    ∷ invalidate ""
    ∷ check 5 6 "a.b" (ok tt)
    ∷ []

new_crd_checker-replay_example : run new_crd_checker calls ≡ replay new_crd_checker.ttl [] calls
new_crd_checker-replay_example = new_crd_checker-replay calls

-- One node that is master and worker.
abbrev master : Node
master = record {
  labels = ("node-role.kubernetes.io/master", "") ∷ ("node-role.kubernetes.io/worker", "") ∷ [];
  annotations = [];
  capacity = "cpu" ∷ "nvidia.com/gpu" ∷ [];
}

is_compact_iff_example :
    (node_topology (master ∷ [])).is_compact ≡ true
    ↔ ((any_node has_master_role (master ∷ []) ≡ true) × AllCompact (master ∷ []))
is_compact_iff_example = is_compact_iff (master ∷ [])

detect_hardware-hardware_of_example : detect_hardware (master ∷ []) ≡ hardware_of (master ∷ [])
detect_hardware-hardware_of_example = detect_hardware-hardware_of (master ∷ [])

abbrev setup : Setup documents flags
setup = record {
  request = policy_document.id;
  assets = [];
  tombstones = ok (retired ∷ []);
  build = λ hco cluster. ok tt;
  evaluator = λ hco facts. evaluator;
  has_recorder = false;
  has_reader = true;
  now = 7;
}

abbrev platform : Platform documents
platform = record { engine = begin []; crds = new_crd_checker }

traced_before :
    length (before_release documents flags setup policy_document tt platform).1.engine.trace ≡ 0
unfolding before_release reconcile_dependency_metrics check_actions reconcile_all Steps.◌>>=◌
    tombstones_have_effective_policy select_assets select_each list_by_reconcile_order
    policy_asset_names crd_opt_in_states collect_states reconcile_policies aggregate_policies
    aggregate_entries merge_assets exclusion_rules parse_disabled_resources is_resource_excluded
    has_entries aggregate_of sorted_entries reconcile_aggregate reconcile_assets reconcile_each
    cleanup_stale lookup ◌>>=◌ trim_space
traced_before = refl

traced_after :
    length (reconcile_platform documents flags setup policy_document tt platform).1.engine.trace ≡ 1
unfolding reconcile_platform before_release reconcile_dependency_metrics check_actions reconcile_all
    Steps.◌>>=◌ tombstones_have_effective_policy select_assets select_each list_by_reconcile_order
    policy_asset_names crd_opt_in_states collect_states reconcile_policies aggregate_policies
    aggregate_entries merge_assets exclusion_rules parse_disabled_resources is_resource_excluded
    has_entries aggregate_of sorted_entries reconcile_aggregate reconcile_assets reconcile_each
    cleanup_stale lookup ◌>>=◌ trim_space release verdict follow run_tombstones
    reconcile_tombstones_matching process_tombstones reconcile_tombstone
    is_machine_config_tombstone_metadata
traced_after = refl

changed :
    (reconcile_platform documents flags setup policy_document tt platform).1
    ≢ (before_release documents flags setup policy_document tt platform).1
changed e =
    let same = ap (λ (p : Platform documents). length p.engine.trace) e in
    absurd (omega (arith, same, traced_before, traced_after))

reconcile_platform-Released_example : Released documents flags setup policy_document tt platform
reconcile_platform-Released_example =
    reconcile_platform-Released documents flags setup policy_document tt platform changed

abbrev ungated : AssetMetadata
ungated = record config_asset { gate_crd = ""; required_crd = "" }

abbrev selected : Selection
selected = record {
  to_reconcile = ungated ∷ [];
  active = ("policy", true) ∷ ("config", true) ∷ [];
  policies_available = true;
}

selects :
    (select_assets documents flags setup policy_document tt
      (ungated ∷ policy_asset ∷ [])
      platform).0
    ≡ ok selected
unfolding select_assets select_each select_asset asset_crds_available crd_available
    policy_asset_names should_apply apply_if apply_unconditional all_satisfied evaluate_condition
    contains insert delete lookup Steps.◌>>=◌
selects = refl

select_assets-AllChosen_example :
    AllChosen documents flags setup policy_document tt
      (policy_asset_names (ungated ∷ policy_asset ∷ []))
      (ungated ∷ [])
select_assets-AllChosen_example =
    select_assets-AllChosen documents flags setup policy_document tt (ungated ∷ policy_asset ∷ [])
      selected platform selects
