-- ===== src/Controller/Steps/Runs.antt =====
-- A chain of calls of pkg/controller/platform_controller.go, of which something is known.
use virt_platform_autopilot.Prelude.{◌≡◌, ◌≢◌, refl}
use virt_platform_autopilot.Kube.{Kube, Result, ok, err}
use virt_platform_autopilot.Controller.Steps.{Platform, Step, continue, ◌>>=◌}

module _ {K : Kube} {A B : Type 0} where
  continue_ok :
      (r : Result A) (f : A → Step K B) (t : Platform K) (b : B)
      → (continue r f t).0 ≡ ok b
      → (a : A) × (r ≡ ok a) × ((f a t).0 ≡ ok b)
  continue_ok (ok a) f t b h = (a, refl, h)
  continue_ok (err e) f t b h = cc

  -- A chain of calls that answers: its first call answered, and so did the rest.
  pub bind_ok :
      (m : Step K A) (f : A → Step K B) (s : Platform K) (b : B)
      → ((m >>= f) s).0 ≡ ok b
      → (a : A) × ((m s).0 ≡ ok a) × ((f a (m s).1).0 ≡ ok b)
  unfolding ◌>>=◌
  bind_ok m f s b h = continue_ok (m s).0 f (m s).1 b h

  continue_changed :
      (r : Result A) (f : A → Step K B) (t : Platform K)
      → (continue r f t).1 ≢ t
      → (a : A) × (r ≡ ok a) × ((f a t).1 ≢ t)
  continue_changed (ok a) f t h = (a, refl, h)
  continue_changed (err e) f t h = absurd (h refl)

  -- A chain that changes more than its first call did: the first call answered.
  pub bind_changed :
      (m : Step K A) (f : A → Step K B) (s : Platform K)
      → ((m >>= f) s).1 ≢ (m s).1
      → (a : A) × ((m s).0 ≡ ok a) × ((f a (m s).1).1 ≢ (m s).1)
  unfolding ◌>>=◌
  bind_changed m f s h = continue_changed (m s).0 f (m s).1 h
