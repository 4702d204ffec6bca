-- ===== src/Kube/Results.antt =====
-- Chains of calls that may fail, and fields that may be missing.
use virt_platform_autopilot.Prelude.{◌≡◌, refl, Bool, true, false, Option, none, some, String}
use virt_platform_autopilot.Kube.{Error, wrap, Result, ok, err}

infixl 5 ◌>>=◌ ◌>>◌
-- `fmt.Errorf("m: %w", err)`
abbrev pub in_context {ℓ} : {A : Type ℓ} → String → Result A → Result A
in_context m (ok a) = ok a
in_context m (err e) = err (wrap m e)

-- `if err != nil { return err }`, and the rest of the body on the value.
abbrev pub ◌>>=◌ {ℓ ℓ'} :
    {X : Type ℓ} {Y : Type ℓ'} (call : Result X) (rest : X → Result Y) → Result Y
◌>>=◌ (err e) rest = err e
◌>>=◌ (ok x) rest = rest x

-- What is checked of a field only where it is found.
abbrev pub when_found {ℓ} : {A : Type ℓ} → Option A → (A → Result (Unit {0})) → Result (Unit {0})
when_found none f = ok tt
when_found (some a) f = f a

-- A check whose answer carries no value.
abbrev pub ◌>>◌ {ℓ'} : {Y : Type ℓ'} (check : Result (Unit {0})) (rest : Result Y) → Result Y
check >> rest = check >>= (λ u. rest)

-- `if !test { return err }`
abbrev pub guard : (test : Bool) (e : Error) → Result (Unit {0})
guard false e = err e
guard true e = ok tt

pub >>=-eq-ok {ℓ ℓ'} :
    {X : Type ℓ} {Y : Type ℓ'} (call : Result X) (rest : X → Result Y) {y : Y}
    → (call >>= rest) ≡ ok y
    → (x : X) × (call ≡ ok x) × (rest x ≡ ok y)
>>=-eq-ok (err e) rest h = cc
>>=-eq-ok (ok x) rest h = (x, refl, h)

pub in_context-eq-ok {ℓ} :
    {A : Type ℓ} (m : String) (r : Result A) {a : A} → in_context m r ≡ ok a → r ≡ ok a
in_context-eq-ok m (ok b) h = h
in_context-eq-ok m (err e) h = cc

-- A field is missing, or it is there and `P` holds of it.
pub data IfPresent {A : Type 0} (r : Result (Option A)) (P : A → Type 0) : Type 0 where
  absent : r ≡ ok none → IfPresent r P
  present : (a : A) → r ≡ ok (some a) → P a → IfPresent r P

pub IfPresent-map :
    {A : Type 0} {P Q : A → Type 0} {r : Result (Option A)}
    → IfPresent r P
    → ((a : A) → P a → Q a)
    → IfPresent r Q
IfPresent-map (absent e) f = absent e
IfPresent-map (present a e p) f = present a e (f a p)

pub when_found-IfPresent :
    {A : Type 0} (r : Result (Option A)) (f : A → Result (Unit {0}))
    → (r >>= λ o. when_found o f) ≡ ok tt
    → IfPresent r (λ a. f a ≡ ok tt)
when_found-IfPresent (ok none) f h = absent refl
when_found-IfPresent (ok (some a)) f h = present a refl h
when_found-IfPresent (err e) f h = cc

-- A test that passed, and what comes after it.
pub guard_then {ℓ} :
    {A : Type ℓ} (b : Bool) (e : Error) (m : Result A) {a : A}
    → (guard b e >> m) ≡ ok a
    → (b ≡ true) × (m ≡ ok a)
guard_then true e m h = (refl, h)
guard_then false e m h = cc
