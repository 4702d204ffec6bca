-- ===== src/Controller/Steps.antt =====
-- The state of the platform reconciler (pkg/controller/platform_controller.go), and chains of its calls.
pub mod Runs
use virt_platform_autopilot.Prelude.{ℕ, String, Bool, true, false, List, [], ◌∷◌, ◌++◌}
use virt_platform_autopilot.Kube.{Kube, ObjectId, Error, Result, ok, err}
use virt_platform_autopilot.Kube.Results.{in_context}
use virt_platform_autopilot.Assets.Conditions.{Values, ConditionEvaluator}
use virt_platform_autopilot.Assets.Registry.{AssetMetadata}
use virt_platform_autopilot.Util.CrdChecker.{CrdCache}
use virt_platform_autopilot.Engine.World.{Effect}
use virt_platform_autopilot.Engine.Flow.{State}
use virt_platform_autopilot.Engine.Tombstone.{TombstoneMetadata}

-- What one call of `Reconcile` is given: the request, the registry's catalog, what `LoadTombstones` returns, the
-- render context builder, the condition evaluator that a context makes, and a reading of the clock.
pub record Setup (K : Kube) (V : Values) : Type 0 where
  pub request : ObjectId
  pub assets : List AssetMetadata
  pub tombstones : Result (List TombstoneMetadata)
  pub build : Kube.Obj K → Kube.Cluster K → Result (Kube.Facts K)
  pub evaluator : Kube.Obj K → Kube.Facts K → ConditionEvaluator V
  pub has_recorder : Bool
  pub has_reader : Bool
  pub now : ℕ

pub record Platform (K : Kube) : Type 0 where
  pub engine : State K
  pub crds : CrdCache

abbrev pub Step {ℓ} : Kube → Type ℓ → Type ℓ
Step K A = Platform K → Result A × Platform K

module _ {K : Kube} {A B : Type 0} where
  abbrev pub continue : Result A → (A → Step K B) → Step K B
  continue (ok a) f s = f a s
  continue (err e) f s = (err e, s)

  infixl 10 ◌>>=◌ ◌>>◌
  unfoldable pub ◌>>=◌ : Step K A → (A → Step K B) → Step K B
  ◌>>=◌ m f s = continue (m s).0 f (m s).1

  abbrev pub ◌>>◌ : Step K A → Step K B → Step K B
  m >> n = m >>= λ _. n

module _ {K : Kube} {A : Type 0} where
  abbrev pub pure : A → Step K A
  pure a s = (ok a, s)

  abbrev pub raise : Error → Step K A
  raise e s = (err e, s)

  -- What is read of the cluster.
  abbrev pub reads : (Kube.Cluster K → Result A) → Step K A
  reads f s = (f s.engine.cluster, s)

  abbrev pub context : String → Step K A → Step K A
  context m a s = (in_context m (a s).0, (a s).1)

  -- A call of the engine.
  abbrev pub engine_call : (State K → A × State K) → Step K A
  engine_call f s = (ok (f s.engine).0, record s { engine = (f s.engine).1 })

module _ {K : Kube} where
  abbrev pub emit : Effect → Step K (Unit {0})
  emit e s = (ok tt, record s { engine = record s.engine { trace = s.engine.trace ++ e ∷ [] } })

  abbrev pub emit_if : Bool → Effect → Step K (Unit {0})
  emit_if true e = emit e
  emit_if false e = pure tt
