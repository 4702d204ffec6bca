-- ===== src/Engine/Flow/Triple.antt =====
-- What an action of pkg/engine/patcher.go guarantees when it goes on.
use mathlib.Core.Path.{subst}
use virt_platform_autopilot.Prelude.{◌≡◌, refl}
use virt_platform_autopilot.Kube.{Kube, Error}
use virt_platform_autopilot.Engine.Flow.{
  State, Flow, next, stop, fail, Action, continue, ◌>>=◌, pure, raise, gets, modify,
}

module _ {K : Kube} {A : Type 0} where
  -- Started where `P` holds, an action that goes on with a value leaves `Q` of it.
  pub record Triple (P : State K → Type 0) (m : Action K A) (Q : A → State K → Type 0)
      : Type 0 where
    pub at : (s : State K) → P s → (a : A) → (m s).0 ≡ next a → Q a (m s).1

module _ {K : Kube} {A B : Type 0} where
  continue-Triple :
      (Q : B → State K → Type 0) (r : Flow A) (f : A → Action K B) (t : State K)
      → ((a : A) → r ≡ next a → (b : B) → (f a t).0 ≡ next b → Q b (f a t).1)
      → (b : B) → (continue r f t).0 ≡ next b
      → Q b (continue r f t).1
  continue-Triple Q (next a) f t h b e = h a refl b e
  continue-Triple Q (stop x) f t h b e = cc
  continue-Triple Q (fail x) f t h b e = cc

  pub Triple-bind :
      {P : State K → Type 0} {R : A → State K → Type 0} {Q : B → State K → Type 0} {m : Action K A}
      {f : A → Action K B}
      → Triple P m R
      → ((a : A) → Triple (R a) (f a) Q)
      → Triple P (m >>= f) Q
  unfolding ◌>>=◌
  Triple-bind {P} {R} {Q} {m} {f} hm hf = record {
    at = λ s p b e.
        continue-Triple Q (m s).0 f (m s).1 (λ a r c g. (hf a).at (m s).1 (hm.at s p a r) c g) b e;
  }

same_next : {A : Type 0} {a b : A} → next a ≡ next b → a ≡ b
same_next e = cc

module _ {K : Kube} {A : Type 0} where
  pub Triple-raise :
      {P : State K → Type 0} {Q : A → State K → Type 0} (e : Error) → Triple P (raise e) Q
  Triple-raise e = record { at = λ s p a r. cc }

  pub Triple-any : {P : State K → Type 0} (m : Action K A) → Triple P m (λ a s. Unit {0})
  Triple-any m = record { at = λ s p a e. tt }

  pub Triple-weaken :
      {P : State K → Type 0} {Q R : A → State K → Type 0} {m : Action K A}
      → Triple P m Q
      → ((a : A) (s : State K) → Q a s → R a s)
      → Triple P m R
  Triple-weaken hm f = record { at = λ s p a e. f a _ (hm.at s p a e) }

  -- A fact that the starting states share is at hand.
  pub Triple-given :
      {P : State K → Type 0} {Q : A → State K → Type 0} {m : Action K A} (E : Type 0)
      → ((s : State K) → P s → E)
      → (E → Triple P m Q)
      → Triple P m Q
  Triple-given E f g = record { at = λ s p. (g (f s p)).at s p }

  pub Triple-pure :
      {P : State K → Type 0} {Q : A → State K → Type 0} (a : A)
      → ((s : State K) → P s → Q a s)
      → Triple P (pure a) Q
  Triple-pure {P} {Q} a h = record { at = λ s p b e. subst (λ c. Q c s) (same_next e) (h s p) }

  pub Triple-gets :
      {P : State K → Type 0} {Q : A → State K → Type 0} (f : State K → A)
      → ((s : State K) → P s → Q (f s) s)
      → Triple P (gets f) Q
  Triple-gets {P} {Q} f h = record { at = λ s p b e. subst (λ c. Q c s) (same_next e) (h s p) }

module _ {K : Kube} where
  pub Triple-modify :
      {P : State K → Type 0} {Q : Unit {0} → State K → Type 0} (f : State K → State K)
      → ((s : State K) → P s → Q tt (f s))
      → Triple P (modify f) Q
  Triple-modify f h = record { at = λ s p a e. h s p }
