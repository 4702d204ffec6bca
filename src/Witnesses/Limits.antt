-- ===== src/Witnesses/Limits.antt =====
-- Runs of the limiter and of the thrashing detector of pkg/throttling.
use virt_platform_autopilot.Prelude.{
  ◌+◌, ◌*◌, ◌-◌, ◌≤◌, ◌≡◌, refl, arith, String, true, some, List, [], ◌∷◌, leb,
}
use virt_platform_autopilot.Prelude.Maps.{lookup, insert, delete, retain}
use virt_platform_autopilot.Throttling.TokenBucket as Bucket
use virt_platform_autopilot.Throttling.TokenBucket.{
  TokenBucket, token_duration, new_token_bucket, new_token_bucket_with_settings, allow, get_tokens,
  cleanup_stale, default_ttl, record_update, default_capacity, default_window,
}
use virt_platform_autopilot.Throttling.TokenBucket.Bounds.{IsValid, allow-IsValid}
use virt_platform_autopilot.Throttling.TokenBucket.Rate.{
  Call, request, clean, Within, grants, grants_bounded,
}
use virt_platform_autopilot.Throttling.TokenBucket.Cleanup.{get_tokens-cleanup_stale}
use virt_platform_autopilot.Throttling.ThrashingDetector.{
  new_thrashing_detector, record_throttle, record_success, get_attempts,
}
use virt_platform_autopilot.Throttling.ThrashingDetector.Episodes.{
  Op, throttle, emit_check, run, in_a_row, emissions, episodes, get_attempts-run, emissions_bounded,
  record_throttle-pauses,
}

-- A limiter of two tokens and a window of ten.
abbrev pub two : TokenBucket
two = record { capacity = 2; window = 10; buckets = [] }

no_bucket : (j : String) (b : Bucket.Bucket) → ¬ (lookup two.buckets j ≡ some b)
unfolding lookup
no_bucket j b e = cc

two-IsValid : IsValid 0 two
two-IsValid = record { distinct = tt; each = λ j b e. absurd (no_bucket j b e) }

abbrev calls : List Call
calls = request 0 "a" ∷ request 1 "a" ∷ request 2 "b" ∷ request 3 "a" ∷ clean 4 ∷ request 6 "a" ∷ []

calls-Within : Within 0 calls 6
calls-Within = omega arith

-- The third request comes before a new token, the fourth one after it.
calls_granted : grants 10 "a" two calls ≡ 3
unfolding grants allow cleanup_stale lookup insert Bucket.refill delete retain
calls_granted = refl

grants_bounded_example :
    grants 10 "a" two calls * token_duration two ≤ 2 * token_duration two + (6 - 0)
unfolding lookup
grants_bounded_example =
    grants_bounded 10 "a" two 0 calls 6 (omega arith) (omega arith) two-IsValid refl calls-Within

-- A bucket that one update has used.
abbrev used : TokenBucket
used = record {
  capacity = 2;
  window = 10;
  buckets = ("a", record { tokens = 1; last_fill = 3; last_accessed = 3 }) ∷ [];
}

allow-used : allow two 3 "a" ≡ some (used, true)
unfolding allow lookup insert delete
allow-used = refl

allow-IsValid_example : IsValid 3 used
allow-IsValid_example = allow-IsValid two 0 3 "a" used true two-IsValid (omega arith) allow-used

used-IsValid : IsValid 3 used
used-IsValid = allow-IsValid two 0 3 "a" used true two-IsValid (omega arith) allow-used

forgets : (cleanup_stale used 10 20).0.buckets ≡ []
unfolding cleanup_stale retain
forgets = refl

get_tokens-cleanup_stale_example :
    get_tokens (cleanup_stale used 10 20).0 25 "a" ≡ get_tokens used 25 "a"
get_tokens-cleanup_stale_example =
    get_tokens-cleanup_stale used 10 3 20 25 "a" (omega arith) (omega arith) (omega arith)
      used-IsValid (omega arith) (omega arith)

abbrev war : List Op
war = throttle "a" ∷ throttle "b" ∷ throttle "a" ∷ emit_check "a" ∷ []

get_attempts-run_example :
    get_attempts (run new_thrashing_detector war) "a"
    ≡ in_a_row "a" (get_attempts new_thrashing_detector "a") war
get_attempts-run_example = get_attempts-run new_thrashing_detector "a" war

emissions_bounded_example : emissions "a" new_thrashing_detector war ≤ 1 + episodes "a" war
emissions_bounded_example = emissions_bounded "a" new_thrashing_detector war

record_throttle-pauses_example :
    (record_throttle (run (record_success new_thrashing_detector "a") war) "a").1
    ≡ leb 3 (in_a_row "a" 0 war + 1)
record_throttle-pauses_example = record_throttle-pauses new_thrashing_detector "a" war
