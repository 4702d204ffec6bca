-- ===== src/Controller/Reconcile.antt =====
-- `Reconcile` of pkg/controller/platform_controller.go: the order of the steps, and the barrier before the
-- deletion of retired MachineConfigs.
pub mod Barrier
use virt_platform_autopilot.Prelude.{
  ℕ, ◌*◌, String, ◌==◌, Bool, true, false, not, ◌&&◌, Option, none, some, List, [], ◌∷◌,
  if◌then◌else◌,
}
use virt_platform_autopilot.Kube.{
  Kube, ObjectId, Error, message, wrap, Result, ok, err, is_not_found,
}
use virt_platform_autopilot.Kube.Results.{in_context}
use virt_platform_autopilot.Assets.Conditions.{Values}
use virt_platform_autopilot.Overrides.Annotations.{is_autopilot_enabled}
use virt_platform_autopilot.Engine.World.{World, set_tls_profile}
use virt_platform_autopilot.Engine.Flow.{State}
use virt_platform_autopilot.Engine.Tombstone.{
  TombstoneMetadata, is_machine_config_tombstone_metadata, reconcile_tombstones_matching,
}
use virt_platform_autopilot.Engine.Tombstone.Policies.{tombstones_have_effective_policy}
use virt_platform_autopilot.Engine.NodeDisruption.Reconcile.{generation_observed}
use virt_platform_autopilot.Controller.Steps.{
  Setup, Platform, Step, ◌>>=◌, ◌>>◌, pure, raise, reads, context, emit,
}
use virt_platform_autopilot.Controller.Assets.{
  reconcile_hco, reconcile_dependency_metrics, reconcile_all,
}

-- `ctrl.Result`: nothing, or a call again after so many seconds.
pub data Outcome : Type 0 where
  done : Outcome
  requeue_after : ℕ → Outcome

abbrev pub idle : Outcome
idle = requeue_after (5 * 60)

abbrev pub soon : Outcome
soon = requeue_after 5

-- What the barrier says of the retired MachineConfigs.
pub data Verdict : Type 0 where
  proceed : Verdict
  defer : Outcome → Verdict

module _ (K : Kube) (V : Values) (setup : Setup K V) where
  open K use {Obj, Cluster, Facts, get, id_of}
  open setup use {request, tombstones, build, has_recorder}

  -- `ReconcileTombstonesMatching`, whose count and error are only logged.
  unfoldable pub run_tombstones : (TombstoneMetadata → Bool) → Step K (Unit {0})
  run_tombstones matches s =
      let (n, error, w) =
        reconcile_tombstones_matching K has_recorder matches tombstones
          (record { cluster = s.engine.cluster; trace = s.engine.trace }) in
      (ok tt, record s { engine = record s.engine { cluster = w.cluster; trace = w.trace } })

  abbrev still : Bool → Verdict
  still true = defer soon
  still false = proceed

  check_still : Bool → Cluster → Result Verdict
  check_still false cluster = ok (defer soon)
  check_still true cluster =
      elim (in_context
        "check MachineConfig tombstone node disruption policy actions after MCO observation"
        (tombstones_have_effective_policy K tombstones cluster)) [
          | err e ↦ err e
          | ok effective ↦ ok (still effective)
        ]

  check_observed : Bool → Cluster → Result Verdict
  unfolding check_still
  check_observed false cluster = ok (defer idle)
  check_observed true cluster =
      elim (in_context "observe node disruption policy before MachineConfig tombstones"
        (generation_observed K cluster)) [
          | err e ↦ err e
          | ok observed ↦ check_still observed cluster
        ]

  -- The block under `if machineConfigNDPAction`.
  unfoldable pub verdict : Bool → Bool → Cluster → Result Verdict
  unfolding check_observed
  verdict false managed cluster = ok proceed
  verdict true managed cluster = check_observed managed cluster

  report_errors : List Error → Step K Outcome
  report_errors [] = pure idle
  report_errors (e ∷ es) = raise e

  unfoldable pub follow : List Error → Verdict → Step K Outcome
  unfolding report_errors
  follow metric_errors (defer outcome) = pure outcome
  follow metric_errors proceed = do
    run_tombstones is_machine_config_tombstone_metadata
    report_errors metric_errors

  -- The end of `Reconcile`: the barrier, the MachineConfig tombstones, the errors of the metrics.
  unfoldable pub release : List Error → Bool → Bool → Step K Outcome
  release metric_errors action managed = do
    v ← reads (verdict action managed)
    follow metric_errors v

  -- Whether retired MachineConfigs have policy actions in effect, before the assets are reconciled.
  unfoldable pub check_actions : Step K Bool
  check_actions =
      context "check MachineConfig tombstone node disruption policy actions"
        (reads (tombstones_have_effective_policy K tombstones))

  -- The metrics, the check and the assets: what the barrier is given.
  unfoldable pub before_release : Obj → Facts → Step K (List Error × Bool × Bool)
  before_release hco facts = do
    metric_errors ← reconcile_dependency_metrics K V setup hco facts
    action ← check_actions
    managed ← reconcile_all K V setup hco facts action
    pure (metric_errors, action, managed)

  -- From the render context on.
  unfoldable pub reconcile_platform : Obj → Facts → Step K Outcome
  reconcile_platform hco facts = do
    (metric_errors, action, managed) ← before_release hco facts
    release metric_errors action managed

  -- With the autopilot enabled.
  unfoldable pub reconcile_enabled : Obj → Step K Outcome
  reconcile_enabled hco = do
    run_tombstones (λ ts. not (is_machine_config_tombstone_metadata ts))
    reconcile_hco K V setup hco
    current ← reads (get request)
    facts ← reads (build current)
    reconcile_platform current facts

  reconcile_read : Result Obj → Step K Outcome
  reconcile_read (err e) = if is_not_found e then pure done else raise e
  reconcile_read (ok hco) = do
    emit (set_tls_profile (id_of hco))
    if is_autopilot_enabled K (some hco) then reconcile_enabled hco else pure idle

  -- `Reconcile`
  unfoldable pub reconcile : Step K Outcome
  unfolding reconcile_read
  reconcile s = reconcile_read (get request s.engine.cluster) s
