-- ===== src/Witnesses/Gates.antt =====
-- Runs of the gate, the patch step and the rollout coalescing of pkg/engine.
use virt_platform_autopilot.Prelude.{◌≡◌, refl, true, false, some, [], ◌∷◌}
use virt_platform_autopilot.Prelude.Maps.{lookup, insert, delete}
use virt_platform_autopilot.Kube.{Kube, ok, Stage}
use virt_platform_autopilot.Overrides.Validation.{contains}
use virt_platform_autopilot.Engine.Flow.{State, next, ◌>>=◌}
use virt_platform_autopilot.Engine.Coalescing.{
  any_releases, same_names, refresh_stage, coalesce_update,
}
use virt_platform_autopilot.Engine.Coalescing.Staging.{
  stage_update, load_staging, write_staging_entry, staging_owner_references, machine_config_stage,
}
use virt_platform_autopilot.Engine.Coalescing.Pools.{
  is_machine_config, copy_bypass_annotation, coalescing_bypassed, bypass_value, matching_pools,
  pool_selector, releases_staged_update, rollout_conditions, selector_expressions,
}
use virt_platform_autopilot.Engine.Coalescing.Refresh.{refresh_stage_exact}
use virt_platform_autopilot.Engine.Coalescing.Held.{Held, coalesce_update-Held}
use virt_platform_autopilot.Engine.Coalescing.Passed.{Passed, coalesce_update-Passed}
use virt_platform_autopilot.Engine.Patcher.Customize.{apply_user_patch}
use virt_platform_autopilot.Engine.Patcher.Customize.Sensitive.{cleared, apply_user_patch_sensitive}
use virt_platform_autopilot.Engine.Patcher.Enforce.{pass_gate}
use virt_platform_autopilot.Engine.Patcher.Enforce.Gate.{Gate, pass_gate-Gate}
use virt_platform_autopilot.Witnesses.{small, Thing, widget, patched_role}
use virt_platform_autopilot.Witnesses.Runs.{calm, start}

pass_gate-Gate_example :
    Gate small calm widget
      (some widget)
      (start (widget ∷ []))
      (pass_gate small calm widget (some widget) (start (widget ∷ []))).0
      (pass_gate small calm widget (some widget) (start (widget ∷ []))).1
pass_gate-Gate_example = pass_gate-Gate small calm widget (some widget) (start (widget ∷ []))

abbrev role : Thing
role = record patched_role { notes = [] }

apply_user_patch_sensitive_example :
    (apply_user_patch small calm role (some patched_role) (start [])).0
    ≡ next (cleared small calm role "[]")
unfolding contains lookup
apply_user_patch_sensitive_example =
    apply_user_patch_sensitive small calm role patched_role "[]" (start []) refl refl (λ e. cc)

abbrev machine_config : Thing
machine_config = record {
  id = record {
    group = "machineconfiguration.openshift.io";
    version = "v1";
    kind = "MachineConfig";
    namespace = "";
    name = "mc";
  };
  notes = [];
  tags = [];
}

abbrev hco : Thing
hco = record {
  id = record {
    group = "hco.kubevirt.io";
    version = "v1beta1";
    kind = "HyperConverged";
    namespace = "kubevirt";
    name = "hco";
  };
  notes = [];
  tags = [];
}

-- One pool, which selects every object and reports no condition.
abbrev pooled : Kube
pooled = record small { list_pools = λ c. ok (widget ∷ []); nested_map = λ m p. ok (some []) }

abbrev pooled_start : State pooled
pooled_start = record {
  cluster = [];
  throttle = record { capacity = 2; window = 10; buckets = [] };
  thrashing = record { states = [] };
  staging = record { entries = []; loaded = false; has_owner = false };
  trace = [];
}

holds :
    (coalesce_update pooled true 7 hco machine_config machine_config "h" pooled_start).0
    ≡ next false
unfolding coalesce_update ◌>>=◌ is_machine_config copy_bypass_annotation coalescing_bypassed lookup
    bypass_value matching_pools pool_selector insert delete selector_expressions
    releases_staged_update rollout_conditions machine_config_stage load_staging stage_update
    write_staging_entry staging_owner_references
holds = refl

coalesce_update-Held_example :
    Held pooled true 7 hco machine_config machine_config "h" []
      (coalesce_update pooled true 7 hco machine_config machine_config "h" pooled_start).1
coalesce_update-Held_example =
    coalesce_update-Held pooled true 7 hco machine_config machine_config "h" pooled_start holds

abbrev stage : Stage
stage = record { staged_at = 3; desired_hash = "h"; matching_pools = "w" ∷ [] }

abbrev staged : State pooled
staged = record pooled_start {
  staging = record { entries = ("mc", stage) ∷ []; loaded = true; has_owner = true };
}

-- The update still waits since 3.
refreshed : (refresh_stage pooled true 7 hco "mc" "h" ("w" ∷ []) (some stage) staged).0 ≡ next stage
unfolding refresh_stage same_names
refreshed = refl

refresh_stage_exact_example :
    (stage ≡ stage)
    × (lookup
          (refresh_stage pooled true 7 hco "mc" "h"
            ("w" ∷ [])
            (some stage)
            staged).1.staging.entries
          "mc"
        ≡ some stage)
unfolding lookup
refresh_stage_exact_example =
    refresh_stage_exact pooled true 7 hco "mc" "h" ("w" ∷ []) (some stage) staged stage refl
      refreshed

-- The pool is updating.
abbrev releasing : Kube
releasing = record pooled {
  nested_slice = λ m p. ok (some ("condition" ∷ []));
  as_map = λ v. some (("type", "Updating") ∷ ("status", "True") ∷ []);
}

abbrev releasing_start : State releasing
releasing_start = record {
  cluster = [];
  throttle = record { capacity = 2; window = 10; buckets = [] };
  thrashing = record { states = [] };
  staging = record { entries = []; loaded = false; has_owner = false };
  trace = [];
}

passes :
    (coalesce_update releasing true 7 hco machine_config machine_config "h" releasing_start).0
    ≡ next true
unfolding coalesce_update ◌>>=◌ is_machine_config copy_bypass_annotation coalescing_bypassed lookup
    bypass_value matching_pools pool_selector insert delete selector_expressions
    releases_staged_update rollout_conditions contains any_releases
passes = refl

coalesce_update-Passed_example : Passed releasing true 7 hco machine_config machine_config []
coalesce_update-Passed_example =
    coalesce_update-Passed releasing true 7 hco machine_config machine_config "h" releasing_start
      passes
