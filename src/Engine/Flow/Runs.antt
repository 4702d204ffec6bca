-- ===== src/Engine/Flow/Runs.antt =====
-- One step of an action of pkg/engine whose first part is known.
use virt_platform_autopilot.Prelude.{◌≡◌, ap}
use virt_platform_autopilot.Kube.{Kube}
use virt_platform_autopilot.Engine.Flow.{State, Flow, next, Action, continue, ◌>>=◌}

module _ {K : Kube} {A B : Type 0} (m : Action K A) (f : A → Action K B) (s t : State K) where
  pub bind_next : (a : A) → m s ≡ (next a, t) → (m >>= f) s ≡ f a t
  unfolding ◌>>=◌
  bind_next a e = ap (λ (p : Flow A × State K). continue p.0 f p.1) e
