-- ===== src/Witnesses/Runs.antt =====
-- Runs of the reconciler of pkg/engine/patcher.go.
use virt_platform_autopilot.Prelude.{◌+◌, ◌≤◌, ◌≡◌, arith, refl, true, false, none, List, [], ◌∷◌}
use virt_platform_autopilot.Prelude.Maps.{lookup, insert, delete}
use virt_platform_autopilot.Kube.{Asset}
use virt_platform_autopilot.Throttling.TokenBucket.{allow, record_update}
use virt_platform_autopilot.Throttling.ThrashingDetector.{record_success}
use virt_platform_autopilot.Engine.Flow.{State}
use virt_platform_autopilot.Engine.Flow.Silent.{applies}
use virt_platform_autopilot.Engine.Flow.Payment.{Paid, OrReset}
use virt_platform_autopilot.Engine.Patcher.Prepare.{Context}
use virt_platform_autopilot.Engine.Patcher.{
  reconcile_asset, reconcile_assets, reconcile_action, manage, customize, enforce,
}
use virt_platform_autopilot.Engine.Flow.{◌>>=◌}
use virt_platform_autopilot.Engine.Applier
use virt_platform_autopilot.Engine.Applier.{
  get_direct, ensure_managed_by_label, has_managed_by_label,
}
use virt_platform_autopilot.Engine.Coalescing.{clear_staging}
use virt_platform_autopilot.Engine.Coalescing.Pools.{is_machine_config}
use virt_platform_autopilot.Engine.Patcher.Prepare.{
  render_asset, check_exclusion, check_policy, get_live,
}
use virt_platform_autopilot.Engine.Patcher.Customize.{
  check_paused, reset_thrashing, clear_customizations, check_unmanaged, apply_user_patch,
  hash_update, mask_fields,
}
use virt_platform_autopilot.Engine.Patcher.Enforce.{
  normalize, check_drift, check_coalescing, check_namespace, pass_gate, apply_desired,
  conclude_applied,
}
use virt_platform_autopilot.Engine.Patcher.Payment.{reconcile_asset-Paid, reconcile_assets-le}
use virt_platform_autopilot.Engine.Patcher.Permitted.{Permitted, reconcile_asset-Permitted}
use virt_platform_autopilot.Witnesses.{small, Thing, widget}
use virt_platform_autopilot.Witnesses.Limits.{two}

abbrev pub calm : Context small
calm = record { hco = widget; facts = tt; has_recorder = true; has_reader = true; now = 5 }

abbrev pub start : List Thing → State small
start cluster = record {
  cluster = cluster;
  throttle = two;
  thrashing = record { states = [] };
  staging = record { entries = []; loaded = false; has_owner = false };
  trace = [];
}

abbrev asset : Asset
asset = record { name = "widget"; policy = none }

-- A missing object is created, and a token is gone.
applied : applies (reconcile_asset small calm asset (start [])).1.trace ≡ 1
unfolding reconcile_asset reconcile_action manage customize enforce ◌>>=◌ get_direct
    ensure_managed_by_label has_managed_by_label clear_staging is_machine_config render_asset
    check_exclusion check_policy get_live check_paused reset_thrashing clear_customizations
    check_unmanaged apply_user_patch hash_update mask_fields normalize check_drift check_coalescing
    check_namespace pass_gate apply_desired conclude_applied lookup record_update allow insert
    delete Applier.apply record_success
applied = refl

reconcile_asset-Paid_example :
    Paid OrReset 5 (start []) (reconcile_asset small calm asset (start [])).1
reconcile_asset-Paid_example = reconcile_asset-Paid small calm asset (start [])

reconcile_assets-le_example :
    applies (reconcile_assets small calm (asset ∷ asset ∷ []) (start [])).2.trace ≤ 0 + 2
reconcile_assets-le_example = reconcile_assets-le small calm (asset ∷ asset ∷ []) (start [])

reconcile_asset-Permitted_example : Permitted small calm asset []
reconcile_asset-Permitted_example =
    reconcile_asset-Permitted small calm asset (start []) (omega (arith, applied))
