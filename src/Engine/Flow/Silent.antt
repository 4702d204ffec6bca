-- ===== src/Engine/Flow/Silent.antt =====
-- Actions of pkg/engine that neither apply an object nor touch the token buckets, one rule for each
-- way to build an action.
use native.Mathlib.Nat.{add-zero}
use virt_platform_autopilot.Prelude.{
  ℕ, ◌+◌, String, ◌≡◌, refl, ap, ◌∙◌, Bool, true, false, List, [], ◌∷◌, ◌++◌, arith, if◌then◌else◌,
}
use virt_platform_autopilot.Kube.{Kube, Error, Result}
use virt_platform_autopilot.Engine.World.{Effect, api_apply}
use virt_platform_autopilot.Engine.Flow.{
  State, Flow, next, stop, fail, Action, ◌>>=◌, continue, pure, return_, raise, lift, gets, context,
  attempt, modify, emit, emit_if, when, write,
}

abbrev pub is_apply : Effect → ℕ
is_apply (api_apply id) = 1
is_apply _ = 0

-- How many server-side applies a trace holds.
abbrev pub applies : List Effect → ℕ
applies [] = 0
applies (e ∷ es) = is_apply e + applies es

pub applies-append :
    (es : List Effect) (e : Effect) → applies (es ++ e ∷ []) ≡ applies es + is_apply e
applies-append [] e = omega arith
applies-append (x ∷ es) e = omega (arith, applies-append es e)

-- `t` is `s` as far as applies and tokens go.
pub record Same {K : Kube} (s t : State K) : Type 0 where
  pub same_applies : applies t.trace ≡ applies s.trace
  pub same_throttle : t.throttle ≡ s.throttle

pub Same-refl : {K : Kube} (s : State K) → Same s s
Same-refl s = record { same_applies = refl; same_throttle = refl }

pub Same-trans : {K : Kube} {s t u : State K} → Same s t → Same t u → Same s u
Same-trans a b = record {
  same_applies = b.same_applies ∙ a.same_applies;
  same_throttle = b.same_throttle ∙ a.same_throttle;
}

pub record Silent {K : Kube} {A : Type 0} (m : Action K A) : Type 0 where
  pub at : (s : State K) → Same s (m s).1

module _ {K : Kube} {A : Type 0} where
  pub Silent-pure : (a : A) → Silent {K = K} (pure a)
  Silent-pure a = record { at = λ s. Same-refl s }

  pub Silent-return : (b : Bool) → Silent {K = K} {A = A} (return_ b)
  Silent-return b = record { at = λ s. Same-refl s }

  pub Silent-raise : (e : Error) → Silent {K = K} {A = A} (raise e)
  Silent-raise e = record { at = λ s. Same-refl s }

  pub Silent-lift : (r : Result A) → Silent {K = K} (lift r)
  Silent-lift r = record { at = λ s. Same-refl s }

  pub Silent-gets : (f : State K → A) → Silent (gets f)
  Silent-gets f = record { at = λ s. Same-refl s }

  pub Silent-if : (b : Bool) (m n : Action K A) → Silent m → Silent n → Silent (if b then m else n)
  Silent-if true m n hm hn = hm
  Silent-if false m n hm hn = hn

  pub Silent-context : (t : String) (m : Action K A) → Silent m → Silent (context t m)
  Silent-context t m h = record { at = λ s. h.at s }

  pub Silent-attempt : (m : Action K A) → Silent m → Silent (attempt m)
  Silent-attempt m h = record { at = λ s. h.at s }

module _ {K : Kube} where
  pub Silent-modify : (f : State K → State K) → ((s : State K) → Same s (f s)) → Silent (modify f)
  Silent-modify f h = record { at = λ s. h s }

  pub Silent-emit : (e : Effect) → is_apply e ≡ 0 → Silent {K = K} (emit e)
  Silent-emit e h = record {
    at = λ s. record {
      same_applies = applies-append s.trace e ∙ ap (λ n. applies s.trace + n) h ∙ add-zero _;
      same_throttle = refl;
    };
  }

  pub Silent-emit_if : (b : Bool) (e : Effect) → is_apply e ≡ 0 → Silent {K = K} (emit_if b e)
  Silent-emit_if true e h = Silent-emit e h
  Silent-emit_if false e h = Silent-pure tt

  pub Silent-when : (b : Bool) (m : Action K (Unit {0})) → Silent m → Silent (when b m)
  Silent-when true m h = h
  Silent-when false m h = Silent-pure tt

  pub Silent-write :
      (call : Kube.Cluster K → Result (Unit {0}) × Kube.Cluster K) → Silent {K = K} (write call)
  Silent-write call = record { at = λ s. record { same_applies = refl; same_throttle = refl } }

module _ {K : Kube} {A B : Type 0} where
  continue-Same :
      (r : Flow A) (f : A → Action K B) (s : State K)
      → ((a : A) → Silent (f a))
      → Same s (continue r f s).1
  continue-Same (next a) f s h = (h a).at s
  continue-Same (stop b) f s h = Same-refl s
  continue-Same (fail e) f s h = Same-refl s

  pub Silent-bind :
      (m : Action K A) (f : A → Action K B) → Silent m → ((a : A) → Silent (f a)) → Silent (m >>= f)
  unfolding ◌>>=◌
  Silent-bind m f hm hf = record {
    at = λ s. Same-trans (hm.at s) (continue-Same (m s).0 f (m s).1 hf);
  }

pub ruleset silent_rules = (
  Silent-pure, Silent-return, Silent-raise, Silent-lift, Silent-gets, Silent-if, Silent-context,
  Silent-attempt, Silent-emit, Silent-emit_if, Silent-when, Silent-write, Silent-bind,
)
