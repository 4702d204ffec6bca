-- ===== src/Lib.antt =====
-- The virt-platform-autopilot controller applies a catalog of assets to a cluster, corrects drift, and
-- leaves users ways to customise, pause or exclude what it manages. This library models its core.
--
-- Prelude (Tests, Maps, Text): Boolean tests on the native numbers, association lists for Go maps, and the
-- string functions of the standard library that the code calls.
--
-- Throttling models pkg/throttling. TokenBucket is token_bucket.go (Allow, Record, Reset, ResetAll,
-- GetTokens, CleanupStale, MakeResourceKey), ThrashingDetector is thrashing_detector.go. Their children
-- state what holds over runs of calls. Each Go method holds the mutex for its whole body, so that a
-- run is a sequence of calls. A duration or a time is a number of nanoseconds.
--
-- Kube holds what is not the controller's own: unstructured objects and their accessors, the API server's
-- answers and errors, JSON Patch, YAML, glob patterns. It is one record of operations, which every other
-- part takes as a parameter; the laws in it say that the setters of labels and annotations set what
-- they name. The cluster is an abstract state. One field stands for code of pkg/engine that is
-- outside the model: render for renderer.go. Results is the chain of calls that may fail.
--
-- Overrides models pkg/overrides: Validation and Annotations are validation.go and jsonpatch.go, Pointer is
-- jsonpointer.go. Security says what the checks refuse and what they let through, Escapes is about
-- jsonpointer.go's unescaping.
--
-- Assets models the registry of pkg/assets/registry.go on a decoded catalog: Conditions is AssetCondition and
-- its evaluation, Registry the questions asked of the catalog, Activation and Policies what holds of them.
--
-- Engine models pkg/engine. World is what a call sees and leaves, with the trace of metric calls, events
-- and API writes in place of pkg/observability and pkg/util/events.go. Drift is drift.go, Applier is
-- applier.go, Exclusion is exclusion.go, Tombstone is tombstone.go, Coalescing (Pools, Staging) is
-- machineconfig_coalescing.go, Patcher is patcher.go: Prepare, Customize and Enforce hold the steps of
-- ReconcileAsset in their order, and Patcher composes them and loops over the assets. Flow is the
-- patcher's state (limiter, detector, staging store, cluster, trace) and the monad of its early returns and
-- errors. The modules named Silent list the steps that neither apply nor touch the limiter; Prepare.Passed and
-- Prepare.Allowed say what a step found out when the call goes on, and Flow.Runs what a step does on a known
-- answer. Flow.Triple states what an action guarantees where it
-- goes on.
--
-- Engine.NodeDisruption is node_disruption_policy.go: Coverage asks whether a policy covers a MachineConfig,
-- Matching whether the status has what a policy wants, Effective is the readiness that the patcher asks for,
-- Aggregate merges the policies of the active assets, and Reconcile applies the aggregate. Their children say
-- what an answer means. Engine.Tombstone.Policies is the check of tombstone.go for policy actions that still
-- apply to retired MachineConfigs. Engine.Patcher.Barrier joins Effective to ReconcileAsset, as Engine.Patcher.Permitted joins the exclusion, the
-- pause and the opt-out. Coalescing.Pools.Releases says of the reported conditions when a pool releases.
--
-- Util.CrdChecker is pkg/util/crd_checker.go: the cache, Replay, which is its specification on the history of
-- calls, and Refinement between the two.
--
-- Controller is pkg/controller/platform_controller.go. Steps is the state of one call, the engine's and the
-- CRD cache; Selection and Assets are reconcileAssets, reconcileHCO and reconcileDependencyMetrics; Reconcile is
-- the order of the whole, and its Barrier the release of retired MachineConfigs; Watch holds the event
-- handlers. Controller.Context is the detection of hardware and topology in hco_context.go.
--
-- Witnesses runs the results on a small cluster, on objects with JSON content, and on a small catalog.
--
-- Loops are structural recursion on the list that the code ranges over; nothing runs on fuel. Numbers are
-- unbounded: token counts and attempt counts stay far below the range of Go's int. A Go map has no order,
-- its model has one; where the code's result depends on the order the code sorts. sort.Slice leaves assets
-- of one reconcile order in any order, the model in the catalog's.
--
-- Not modelled: logging, the text of error messages beyond what code reads, the duration histogram,
-- templates, the decoding of the asset catalog, features.go, the tombstone loader. Of pkg/controller, the rest
-- of RenderContextBuilder.Build is a parameter of a reconciliation (Steps.Setup), and the constructors and
-- SetupWithManager are controller-runtime wiring. The metrics TLS profile is an entry of the trace. TLS
-- itself, the resources and the commands are outside.
pub mod Prelude
pub mod Throttling
pub mod Kube
pub mod Overrides
pub mod Assets
pub mod Util
pub mod Engine
pub mod Controller
pub mod Witnesses
