-- ===== src/Throttling/TokenBucket/Cleanup.antt =====
-- `CleanupStale` of token_bucket.go: what forgetting an idle bucket changes.
use virt_platform_autopilot.Prelude.{
  ℕ, ◌-◌, ◌*◌, ◌/◌, ◌≤◌, ◌<◌, ◌≡◌, String, false, Option-cases, arith, inl, inr,
}
use virt_platform_autopilot.Prelude.Maps.{lookup, lookup-retain}
use virt_platform_autopilot.Throttling.TokenBucket.{
  Bucket, TokenBucket, token_duration, current_tokens, get_tokens, cleanup_stale, in_use,
}
use virt_platform_autopilot.Throttling.TokenBucket.Bounds.{
  IsBucket, IsValid, IsBucket-later, div_mul_le,
}

le_div : (c d e : ℕ) → 0 < d → c * d ≤ e → c ≤ e / d
le_div c d e h k = grind arith

-- A full window of idle time refills a bucket.
idle_refills : (c w e : ℕ) → 0 < w / c → w ≤ e → c ≤ e / (w / c)
idle_refills c w e k l = le_div c (w / c) e k (omega (arith, div_mul_le w c))

stale_full :
    (tb : TokenBucket) (ttl now later : ℕ) (b : Bucket)
    → 0 < token_duration tb
    → tb.window ≤ ttl
    → IsBucket tb.capacity now b
    → now ≤ later
    → in_use ttl now b ≡ false
    → current_tokens tb.capacity (token_duration tb) later b ≡ tb.capacity
unfolding current_tokens
stale_full tb ttl now later b d w v h s =
    ground (arith, idle_refills tb.capacity tb.window (later - b.last_fill))

-- CleanupStale changes no later token count of any resource, when the capacity is positive, a
-- token takes some time to refill, the time to live is at least the window, the limiter is sound
-- and the clock does not run backwards.
pub get_tokens-cleanup_stale :
    (tb : TokenBucket) (ttl t now later : ℕ) (key : String)
    → 0 < tb.capacity
    → 0 < token_duration tb
    → tb.window ≤ ttl
    → IsValid t tb
    → t ≤ now
    → now ≤ later
    → get_tokens (cleanup_stale tb ttl now).0 later key ≡ get_tokens tb later key
unfolding get_tokens cleanup_stale
get_tokens-cleanup_stale tb ttl t now later key c d w v h l =
    elim (Option-cases (lookup tb.buckets key)) [
      | inl e ↦ ground (arith, e, lookup-retain (in_use ttl now) tb.buckets key v.distinct)
      | inr (b, e) ↦ ground (
        arith,
        e,
        lookup-retain (in_use ttl now) tb.buckets key v.distinct,
        stale_full tb ttl now later b d w (IsBucket-later (v.each key b e) h) l,
      )
    ]
