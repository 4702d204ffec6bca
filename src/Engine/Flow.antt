-- ===== src/Engine/Flow.antt =====
-- The state of the patcher (pkg/engine/patcher.go), and its code as actions: an action goes on with a
-- value, returns from `ReconcileAsset`, or fails.
pub mod Silent
pub mod Payment
pub mod Runs
pub mod Triple
use virt_platform_autopilot.Prelude.{String, Bool, true, false, List, [], ◌∷◌, ◌++◌}
use virt_platform_autopilot.Prelude.Maps.{Map}
use virt_platform_autopilot.Kube.{Kube, Error, wrap, Result, ok, err, Stage}
use virt_platform_autopilot.Throttling.TokenBucket.{TokenBucket}
use virt_platform_autopilot.Throttling.ThrashingDetector.{ThrashingDetector}
use virt_platform_autopilot.Engine.World.{Effect}

-- `machineConfigStagingStore`: the mirror of the staging ConfigMap.
pub record StagingStore : Type 0 where
  pub entries : Map Stage
  pub loaded : Bool
  pub has_owner : Bool

pub record State (K : Kube) : Type 0 where
  pub cluster : Kube.Cluster K
  pub throttle : TokenBucket
  pub thrashing : ThrashingDetector
  pub staging : StagingStore
  pub trace : List Effect

pub data Flow {ℓ} (A : Type ℓ) : Type ℓ where
  next : A → Flow A
  stop : Bool → Flow A
  fail : Error → Flow A

abbrev pub Action {ℓ} : Kube → Type ℓ → Type ℓ
Action K A = State K → Flow A × State K

module _ {K : Kube} {A B : Type 0} where
  abbrev pub continue : Flow A → (A → Action K B) → Action K B
  continue (next a) f s = f a s
  continue (stop b) f s = (stop b, s)
  continue (fail e) f s = (fail e, s)

  infixl 10 ◌>>=◌ ◌>>◌
  unfoldable pub ◌>>=◌ : Action K A → (A → Action K B) → Action K B
  ◌>>=◌ m f s = continue (m s).0 f (m s).1

  abbrev pub ◌>>◌ : Action K A → Action K B → Action K B
  m >> n = m >>= λ _. n

module _ {A : Type 0} where
  abbrev pub flow_of : Result A → Flow A
  flow_of (ok a) = next a
  flow_of (err e) = fail e

  abbrev pub settle : Flow A → Flow (Result A)
  settle (next a) = next (ok a)
  settle (stop b) = stop b
  settle (fail e) = next (err e)

  abbrev pub in_context : String → Flow A → Flow A
  in_context m (next a) = next a
  in_context m (stop b) = stop b
  in_context m (fail e) = fail (wrap m e)

module _ {K : Kube} {A : Type 0} where
  abbrev pub pure : A → Action K A
  pure a s = (next a, s)

  -- `return b, nil`
  abbrev pub return_ : Bool → Action K A
  return_ b s = (stop b, s)

  -- `return false, err`
  abbrev pub raise : Error → Action K A
  raise e s = (fail e, s)

  abbrev pub lift : Result A → Action K A
  lift r s = (flow_of r, s)

  abbrev pub gets : (State K → A) → Action K A
  gets f s = (next (f s), s)

  -- `fmt.Errorf("m: %w", err)` around what an action fails with.
  abbrev pub context : String → Action K A → Action K A
  context m a s = (in_context m (a s).0, (a s).1)

  -- An action whose error the caller looks at.
  abbrev pub attempt : Action K A → Action K (Result A)
  attempt a s = (settle (a s).0, (a s).1)

module _ {K : Kube} where
  abbrev pub modify : (State K → State K) → Action K (Unit {0})
  modify f s = (next tt, f s)

  -- Metrics, events and API writes are appended to the trace.
  abbrev pub emit : Effect → Action K (Unit {0})
  emit e s = (next tt, record s { trace = s.trace ++ e ∷ [] })

  abbrev pub emit_if : Bool → Effect → Action K (Unit {0})
  emit_if true e = emit e
  emit_if false e = pure tt

  abbrev pub when : Bool → Action K (Unit {0}) → Action K (Unit {0})
  when true a = a
  when false a = pure tt

  -- An API write: the answer, with the cluster that it leaves.
  abbrev pub write :
      (Kube.Cluster K → Result (Unit {0}) × Kube.Cluster K) → Action K (Result (Unit {0}))
  write call s = (next (call s.cluster).0, record s { cluster = (call s.cluster).1 })
