-- ===== src/Engine/Flow/Payment.antt =====
-- What an action of pkg/engine/patcher.go pays for the object that it applies.
use mathlib.Core.Path.{subst}
use virt_platform_autopilot.Prelude.{
  ℕ, ◌+◌, String, ◌≡◌, refl, ap, ◌∙◌, ◌⊎◌, Bool, true, false, none, some, if◌then◌else◌,
}
use virt_platform_autopilot.Kube.{Kube, Error}
use virt_platform_autopilot.Throttling.TokenBucket as Bucket
use virt_platform_autopilot.Engine.Flow.{
  State, Flow, next, stop, fail, Action, raise, continue, ◌>>=◌,
}
use virt_platform_autopilot.Engine.Flow.Silent.{Same, Silent, applies}

-- How the run of an action from `s` to `t` pays for its applies: it makes none, or one that a token
-- of a limiter `tb` paid for, which stands to the limiter of `s` in the relation `R`.
pub data Paid {K : Kube} (R : Bucket.TokenBucket → Bucket.TokenBucket → Type 0) (now : ℕ)
    (s t : State K) : Type 0 where
  none_applied : applies t.trace ≡ applies s.trace → Paid R now s t
  one_applied :
      (tb : Bucket.TokenBucket) (key : String)
      → applies t.trace ≡ applies s.trace + 1
      → R s.throttle tb
      → Bucket.record_update tb now key ≡ some (t.throttle, none)
      → Paid R now s t

-- The limiter itself.
abbrev pub SameLimiter : Bucket.TokenBucket → Bucket.TokenBucket → Type 0
SameLimiter a b = b ≡ a

-- The limiter itself, or the limiter without the bucket of a resource whose pause was lifted.
abbrev pub OrReset : Bucket.TokenBucket → Bucket.TokenBucket → Type 0
OrReset a b = (b ≡ a) ⊎ ((key : String) × (b ≡ Bucket.reset a key))

-- An action that never goes on.
pub record Ends {K : Kube} {A : Type 0} (m : Action K A) : Type 0 where
  pub at : (s : State K) (a : A) → ¬ ((m s).0 ≡ next a)

module _ {K : Kube} {A : Type 0} where
  pub Ends-raise : (e : Error) → Ends {K = K} {A = A} (raise e)
  Ends-raise e = record { at = λ s a h. cc }

  pub Ends-if : (b : Bool) (m n : Action K A) → Ends m → Ends n → Ends (if b then m else n)
  Ends-if true m n hm hn = hm
  Ends-if false m n hm hn = hn

module _ {K : Kube} {A B : Type 0} where
  continue-Ends :
      (r : Flow A) (f : A → Action K B) (s : State K) (b : B)
      → ((a : A) → Ends (f a))
      → ¬ ((continue r f s).0 ≡ next b)
  continue-Ends (next a) f s b h e = (h a).at s b e
  continue-Ends (stop x) f s b h e = cc
  continue-Ends (fail x) f s b h e = cc

  pub Ends-bind : (m : Action K A) (f : A → Action K B) → ((a : A) → Ends (f a)) → Ends (m >>= f)
  unfolding ◌>>=◌
  Ends-bind m f h = record { at = λ s b e. continue-Ends (m s).0 f (m s).1 b h e }

module _ {K : Kube} (R : Bucket.TokenBucket → Bucket.TokenBucket → Type 0) (now : ℕ) where
  pub Paid-after : {s t u : State K} → Same s t → Paid R now t u → Paid R now s u
  Paid-after p (none_applied h) = none_applied (h ∙ p.same_applies)
  Paid-after p (one_applied tb key h r e) =
      one_applied tb key (h ∙ ap (λ n. n + 1) p.same_applies)
        (subst (λ x. R x tb) p.same_throttle r) e

module _ {K : Kube} {A B : Type 0} (R : Bucket.TokenBucket → Bucket.TokenBucket → Type 0)
    (now : ℕ) where
  continue-Paid :
      (r : Flow A) (f : A → Action K B) (s t : State K)
      → Same s t
      → ((a : A) (u : State K) → Paid R now u (f a u).1)
      → Paid R now s (continue r f t).1
  continue-Paid (next a) f s t p h = Paid-after R now p (h a t)
  continue-Paid (stop b) f s t p h = none_applied p.same_applies
  continue-Paid (fail e) f s t p h = none_applied p.same_applies

  -- Steps that neither apply nor spend may stand in front.
  pub Paid-bind :
      (m : Action K A) (f : A → Action K B) (s : State K)
      → Silent m
      → ((a : A) (u : State K) → Paid R now u (f a u).1)
      → Paid R now s ((m >>= f) s).1
  unfolding ◌>>=◌
  Paid-bind m f s hm hf = continue-Paid (m s).0 f s (m s).1 (hm.at s) hf

  pub continue_stopped :
      (r : Flow A) (f : A → Action K B) (s t : State K)
      → ((a : A) → ¬ (r ≡ next a))
      → applies t.trace ≡ applies s.trace
      → Paid R now s (continue r f t).1
  continue_stopped (next a) f s t h p = absurd (h a refl)
  continue_stopped (stop b) f s t h p = none_applied p
  continue_stopped (fail e) f s t h p = none_applied p
