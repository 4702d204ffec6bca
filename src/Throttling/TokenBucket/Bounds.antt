-- ===== src/Throttling/TokenBucket/Bounds.antt =====
-- No bucket of token_bucket.go holds more than the capacity, and its stamps never pass the clock.
use mathlib.Core.Path.{subst, refl}
use virt_platform_autopilot.Prelude.{
  ℕ, ◌+◌, ◌-◌, ◌*◌, ◌/◌, ◌≤◌, ◌≡◌, String, Bool, Bool-cases, eqb, Option, none, some, inl, inr,
  arith, some_fst,
}
use virt_platform_autopilot.Prelude.Maps.{
  lookup, insert, Distinct, insert-Distinct, delete-Distinct, retain-Distinct, insert_cases,
  delete_cases, retain_cases,
}
use virt_platform_autopilot.Throttling.TokenBucket.{
  Bucket, TokenBucket, token_duration, refill, take_token, allow, allow_found, cleanup_stale, reset,
  in_use,
}

-- What holds of one bucket at the time `now`.
pub record IsBucket (capacity now : ℕ) (b : Bucket) : Type 0 where
  pub capped : b.tokens ≤ capacity
  pub filled : b.last_fill ≤ now
  pub ordered : b.last_fill ≤ b.last_accessed
  pub accessed : b.last_accessed ≤ now

-- What holds of the whole limiter at the time `now`.
pub record IsValid (now : ℕ) (tb : TokenBucket) : Type 0 where
  pub distinct : Distinct tb.buckets
  pub each :
      (key : String) (b : Bucket) → lookup tb.buckets key ≡ some b → IsBucket tb.capacity now b

pub div_mul_le : (n d : ℕ) → n / d * d ≤ n
div_mul_le n d = grind arith

refill_time : (f now d : ℕ) → f ≤ now → f + (now - f) / d * d ≤ now
refill_time f now d h = omega (arith, div_mul_le (now - f) d)

take_token-IsBucket :
    (capacity d t now : ℕ) (b : Bucket)
    → IsBucket capacity t b
    → t ≤ now
    → IsBucket capacity now (take_token capacity d now b).0
unfolding take_token refill
take_token-IsBucket capacity d t now b v h = ground (arith, refill_time b.last_fill now d)

pub IsBucket-later :
    {capacity t now : ℕ} {b : Bucket} → IsBucket capacity t b → t ≤ now → IsBucket capacity now b
IsBucket-later v h = omega arith

pub IsValid-later : (tb : TokenBucket) (t now : ℕ) → IsValid t tb → t ≤ now → IsValid now tb
IsValid-later tb t now v h = record {
  distinct = v.distinct;
  each = λ j b e. IsBucket-later (v.each j b e) h;
}

-- One write of a bucket that is sound keeps the limiter sound.
insert-IsValid :
    (tb : TokenBucket) (t now : ℕ) (key : String) (b : Bucket)
    → IsValid t tb
    → t ≤ now
    → IsBucket tb.capacity now b
    → IsValid now (record tb { buckets = insert tb.buckets key b })
insert-IsValid tb t now key b v h new = record {
  distinct = insert-Distinct tb.buckets key b v.distinct;
  each = λ j c e. elim (insert_cases tb.buckets key j b c e) [
    | inl p ↦ subst (λ x. IsBucket tb.capacity now x) p new
    | inr p ↦ IsBucket-later (v.each j c p) h
  ];
}

allow_found-IsValid :
    (tb : TokenBucket) (t now : ℕ) (key : String) (o : Option Bucket) (tb' : TokenBucket) (r : Bool)
    → lookup tb.buckets key ≡ o
    → IsValid t tb
    → t ≤ now
    → allow_found tb now key o ≡ some (tb', r)
    → IsValid now tb'
unfolding allow_found
allow_found-IsValid tb t now key none tb' r l v h e =
    subst (IsValid now) (some_fst e) (insert-IsValid tb t now key _ v h (omega arith))
allow_found-IsValid tb t now key (some b) tb' r l v h e = elim (Bool-cases (eqb tb.capacity 0)) [
  | inl p ↦ cc (rw p at e)
  | inr p ↦ subst (IsValid now) (some_fst (rw p at e)) (
      insert-IsValid tb t now key _ v h
        (take_token-IsBucket tb.capacity (token_duration tb) t now b (v.each key b l) h))
]

-- Allow keeps the limiter sound: keys are distinct, no bucket exceeds the capacity, and no stamp
-- passes the clock, as long as the clock does not run backwards.
pub allow-IsValid :
    (tb : TokenBucket) (t now : ℕ) (key : String) (tb' : TokenBucket) (r : Bool)
    → IsValid t tb
    → t ≤ now
    → allow tb now key ≡ some (tb', r)
    → IsValid now tb'
unfolding allow
allow-IsValid tb t now key tb' r v h e =
    allow_found-IsValid tb t now key (lookup tb.buckets key) tb' r refl v h e

pub reset-IsValid :
    (tb : TokenBucket) (now : ℕ) (key : String) → IsValid now tb → IsValid now (reset tb key)
unfolding reset
reset-IsValid tb now key v = record {
  distinct = delete-Distinct tb.buckets key v.distinct;
  each = λ j b e. v.each j b (delete_cases tb.buckets key j b e);
}

pub cleanup_stale-IsValid :
    (tb : TokenBucket) (ttl t now : ℕ)
    → IsValid t tb
    → t ≤ now
    → IsValid now (cleanup_stale tb ttl now).0
unfolding cleanup_stale
cleanup_stale-IsValid tb ttl t now v h = record {
  distinct = retain-Distinct (in_use ttl now) tb.buckets v.distinct;
  each = λ j b e.
      IsBucket-later (v.each j b (retain_cases (in_use ttl now) tb.buckets j b v.distinct e).0) h;
}
