-- ===== src/Throttling/TokenBucket/Rate.antt =====
-- How many updates of one resource `Allow` of token_bucket.go grants over a run of calls.
use mathlib.Core.Path.{subst}
use virt_platform_autopilot.Prelude.{
  ℕ, zero, suc, ◌+◌, ◌-◌, ◌*◌, ◌/◌, ◌≤◌, ◌<◌, ◌≡◌, refl, String, Bool, true, false, Option, none,
  some, List, [], ◌∷◌, arith, Option-cases, Bool-cases, inl, inr, ◌==◌, ◌&&◌, if◌then◌else◌, eq_iff,
}
use virt_platform_autopilot.Prelude.Maps.{lookup, insert, lookup-insert, lookup-retain}
use virt_platform_autopilot.Throttling.TokenBucket.{
  Bucket, TokenBucket, token_duration, refill, take_token, allow, allow_found, cleanup_stale,
  in_use,
}
use virt_platform_autopilot.Throttling.TokenBucket.Bounds.{
  IsValid, IsValid-later, div_mul_le, allow-IsValid, cleanup_stale-IsValid,
}

-- The credit of a bucket in nanoseconds: its tokens, and the time not yet turned into tokens.
abbrev credit : ℕ → ℕ → Bucket → ℕ
credit d now b = b.tokens * d + (now - b.last_fill)

-- A key that has no bucket is worth a full one.
abbrev account : TokenBucket → ℕ → Option Bucket → ℕ
account tb now none = tb.capacity * token_duration tb
account tb now (some b) = credit (token_duration tb) now b

abbrev price : ℕ → Bool → ℕ
price d true = d
price d false = 0

mul_mono : (a b d : ℕ) → a ≤ b → a * d ≤ b * d
mul_mono a b d h = grind arith

mul_pred : (a d : ℕ) → 0 < a → (a - 1) * d + d ≡ a * d
mul_pred zero d h = absurd (omega arith)
mul_pred (suc a) d h = let e : suc a - 1 ≡ a = omega arith in rw e (omega arith)

credit-refill :
    (c d now : ℕ) (b : Bucket)
    → b.last_fill ≤ now
    → credit d now (refill c d now b) ≤ credit d now b
unfolding refill
credit-refill c d now b h =
    ground
      (arith, div_mul_le (now - b.last_fill) d, mul_mono c (b.tokens + (now - b.last_fill) / d) d)

-- A granted call costs one token's time.
credit-take_token :
    (c d now : ℕ) (b : Bucket)
    → b.last_fill ≤ now
    → credit d now (take_token c d now b).0 + price d (take_token c d now b).1 ≤ credit d now b
unfolding take_token
credit-take_token c d now b h = ground (
  arith,
  credit-refill c d now (record b { last_accessed = now }),
  mul_pred (refill c d now (record b { last_accessed = now })).tokens d,
)

-- What `Allow` stores for its key, and what it returns.
abbrev after : TokenBucket → ℕ → Option Bucket → Bucket × Bool
after tb now none =
    (record { tokens = tb.capacity - 1; last_fill = now; last_accessed = now }, true)
after tb now (some b) = take_token tb.capacity (token_duration tb) now b

abbrev stored : TokenBucket → ℕ → String → Option Bucket → TokenBucket
stored tb now key o = record tb { buckets = insert tb.buckets key (after tb now o).0 }

pub allow-after :
    (tb : TokenBucket) (now : ℕ) (key : String)
    → 0 < tb.capacity
    → allow tb now key
      ≡ some (stored tb now key (lookup tb.buckets key), (after tb now (lookup tb.buckets key)).1)
unfolding allow
allow-after tb now key c = elim (Option-cases (lookup tb.buckets key)) [
  | inl e ↦ rw (e, allow_found)
  | inr (b, e) ↦ ground (arith, e)
]

account-after :
    (tb : TokenBucket) (now : ℕ) (o : Option Bucket)
    → 0 < tb.capacity
    → ((b : Bucket) → o ≡ some b → b.last_fill ≤ now)
    → account tb now (some (after tb now o).0) + price (token_duration tb) (after tb now o).1
      ≤ account tb now o
account-after tb now none c f = omega (arith, mul_pred tb.capacity (token_duration tb) c)
account-after tb now (some b) c f =
    credit-take_token tb.capacity (token_duration tb) now b (f b refl)

-- The account of a key after an `Allow`, for the key itself or another.
account-stored :
    (tb : TokenBucket) (now : ℕ) (key j : String)
    → 0 < tb.capacity
    → IsValid now tb
    → let o = lookup tb.buckets key in
      account tb now (lookup (stored tb now key o).buckets j)
        + (if key == j then price (token_duration tb) (after tb now o).1 else 0)
      ≤ account tb now (lookup tb.buckets j)
account-stored tb now key j c v = elim (Bool-cases (key == j)) [
  | inl p ↦
      rw (lookup-insert, p)
        (subst
          (λ k.
            account tb now (some (after tb now (lookup tb.buckets key)).0)
              + price (token_duration tb) (after tb now (lookup tb.buckets key)).1
            ≤ account tb now (lookup tb.buckets k))
          ((eq_iff key j).0 p)
          (account-after tb now (lookup tb.buckets key) c (λ b e. (v.each key b e).filled)))
  | inr p ↦ rw (lookup-insert, p) (omega arith)
]

account-later :
    (tb : TokenBucket) (t now : ℕ) (o : Option Bucket)
    → t ≤ now
    → account tb now o ≤ account tb t o + (now - t)
account-later tb t now none h = omega arith
account-later tb t now (some b) h = omega arith

-- A stale bucket is worth a full one, so forgetting it adds nothing.
account-cleanup_stale :
    (tb : TokenBucket) (ttl now : ℕ) (k : String)
    → tb.window ≤ ttl
    → IsValid now tb
    → account tb now (lookup (cleanup_stale tb ttl now).0.buckets k)
      ≤ account tb now (lookup tb.buckets k)
unfolding cleanup_stale
account-cleanup_stale tb ttl now k w v = elim (Option-cases (lookup tb.buckets k)) [
  | inl e ↦ rw (lookup-retain (in_use ttl now) tb.buckets k v.distinct, e) (omega arith)
  | inr (b, e) ↦
      rw (lookup-retain (in_use ttl now) tb.buckets k v.distinct, e)
        (ground (arith, v.each k b e, div_mul_le tb.window tb.capacity))
]

-- The calls that a run of the controller makes, each with its time.
pub data Call : Type 0 where
  request : ℕ → String → Call
  clean : ℕ → Call

abbrev pub time : Call → ℕ
time (request now key) = now
time (clean now) = now

-- The calls stand in the order of time, from `t` to `end`.
abbrev pub Within : ℕ → List Call → ℕ → Type 0
Within t [] end = t ≤ end
Within t (c ∷ cs) end = (t ≤ time c) × Within (time c) cs end

abbrev count_if : Bool → ℕ
count_if true = 1
count_if false = 0

-- How many requests for `k` the calls are granted; a panic ends the run.
unfoldable pub grants : ℕ → String → TokenBucket → List Call → ℕ
grants ttl k tb [] = 0
grants ttl k tb (request now key ∷ cs) = elim (allow tb now key) [
  | none ↦ 0
  | some (tb', r) ↦ count_if (key == k && r) + grants ttl k tb' cs
]
grants ttl k tb (clean now ∷ cs) = grants ttl k (cleanup_stale tb ttl now).0 cs

Within-le : (t : ℕ) (cs : List Call) (end : ℕ) → Within t cs end → t ≤ end
Within-le t [] end h = h
Within-le t (c ∷ cs) end h = omega (arith, Within-le (time c) cs end h.1)

count_price :
    (a : Bool) (r : Bool) (n d : ℕ)
    → (count_if (a && r) + n) * d ≡ (if a then price d r else 0) + n * d
count_price true true n d = omega arith
count_price true false n d = omega arith
count_price false r n d = omega arith

grants-le-account :
    (ttl : ℕ) (k : String) (tb : TokenBucket) (t : ℕ) (cs : List Call) (end : ℕ)
    → 0 < tb.capacity
    → tb.window ≤ ttl
    → IsValid t tb
    → Within t cs end
    → grants ttl k tb cs * token_duration tb ≤ account tb t (lookup tb.buckets k) + (end - t)
unfolding grants cleanup_stale
grants-le-account ttl k tb t [] end c w v h = omega arith
grants-le-account ttl k tb t (request now key ∷ cs) end c w v h =
    let o = lookup tb.buckets key in
    rw (allow-after tb now key c, grants)
      (omega (
        arith,
        count_price (key == k) (after tb now o).1 (grants ttl k (stored tb now key o) cs)
            (token_duration tb),
        account-later tb t now (lookup tb.buckets k) h.0,
        account-stored tb now key k c (IsValid-later tb t now v h.0),
        Within-le now cs end h.1,
        grants-le-account ttl k (stored tb now key o) now cs end c w
            (allow-IsValid tb t now key (stored tb now key o) (after tb now o).1 v h.0
              (allow-after tb now key c))
            h.1,
      ))
grants-le-account ttl k tb t (clean now ∷ cs) end c w v h = omega (
  arith,
  account-later tb t now (lookup tb.buckets k) h.0,
  account-cleanup_stale tb ttl now k w (IsValid-later tb t now v h.0),
  Within-le now cs end h.1,
  grants-le-account ttl k (cleanup_stale tb ttl now).0 now cs end c w
      (cleanup_stale-IsValid tb ttl t now v h.0) h.1,
)

-- In any run of Allow and CleanupStale calls, a resource without a bucket is granted at most a
-- full bucket and one update for each token duration of the run: the grants times the token
-- duration are at most the capacity times the token duration plus the length of the run. The
-- capacity is positive, the time to live of the cleanup is at least the window, the limiter is
-- sound, and the calls stand in the order of time.
pub grants_bounded :
    (ttl : ℕ) (k : String) (tb : TokenBucket) (t : ℕ) (cs : List Call) (end : ℕ)
    → 0 < tb.capacity
    → tb.window ≤ ttl
    → IsValid t tb
    → lookup tb.buckets k ≡ none
    → Within t cs end
    → grants ttl k tb cs * token_duration tb ≤ tb.capacity * token_duration tb + (end - t)
grants_bounded ttl k tb t cs end c w v e h =
    subst (λ o. grants ttl k tb cs * token_duration tb ≤ account tb t o + (end - t)) e
      (grants-le-account ttl k tb t cs end c w v h)
