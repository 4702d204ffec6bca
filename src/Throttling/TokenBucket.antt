-- ===== src/Throttling/TokenBucket.antt =====
-- pkg/throttling/token_bucket.go: one token bucket per resource key. Times and durations are
-- nanoseconds of the process's monotonic clock; the calls that read `time.Now()` take it as `now`.
-- A division by a zero capacity panics in Go: the caller meets `none`.
pub mod Bounds
pub mod Rate
pub mod Cleanup
use Prim.Native.String.{◌++◌}
use virt_platform_autopilot.Prelude.{
  ℕ, ◌+◌, ◌-◌, ◌*◌, ◌/◌, String, Bool, true, false, not, ◌&&◌, Option, none, some, [], ltb, eqb,
  length, ◌==◌, if◌then◌else◌,
}
use virt_platform_autopilot.Prelude.Maps.{Map, lookup, insert, delete, retain}

abbrev pub default_capacity : ℕ
default_capacity = 10

-- One minute and one hour, in nanoseconds.
abbrev pub default_window : ℕ
default_window = 60 * 1000000000

abbrev pub default_ttl : ℕ
default_ttl = 3600 * 1000000000

pub record Bucket : Type 0 where
  pub tokens : ℕ
  pub last_fill : ℕ
  pub last_accessed : ℕ

pub record TokenBucket : Type 0 where
  pub capacity : ℕ
  pub window : ℕ
  pub buckets : Map Bucket

unfoldable pub new_token_bucket_with_settings : ℕ → ℕ → TokenBucket
new_token_bucket_with_settings capacity window = record {
  capacity = capacity;
  window = window;
  buckets = [];
}

unfoldable pub new_token_bucket : TokenBucket
unfolding new_token_bucket_with_settings
new_token_bucket = new_token_bucket_with_settings default_capacity default_window

-- The time that yields one token; Go's integer division.
abbrev pub token_duration : TokenBucket → ℕ
token_duration tb = tb.window / tb.capacity

-- The rate-based refill of `Allow`: whole tokens only, and `last_fill` moves by the time that
-- produced them.
unfoldable pub refill : ℕ → ℕ → ℕ → Bucket → Bucket
refill capacity d now b =
    let add = (now - b.last_fill) / d in
    if ltb 0 d && ltb 0 add
    then record b {
      tokens = if ltb capacity (b.tokens + add) then capacity else b.tokens + add;
      last_fill = b.last_fill + add * d;
    }
    else b

-- `Allow` on a bucket that exists: stamp, refill, then take a token if there is one.
unfoldable pub take_token : ℕ → ℕ → ℕ → Bucket → Bucket × Bool
take_token capacity d now b =
    let b' = refill capacity d now (record b { last_accessed = now }) in
    if eqb b'.tokens 0 then (b', false) else (record b' { tokens = b'.tokens - 1 }, true)

abbrev fresh : ℕ → ℕ → Bucket
fresh capacity now = record { tokens = capacity - 1; last_fill = now; last_accessed = now }

allow_found : TokenBucket → ℕ → String → Option Bucket → Option (TokenBucket × Bool)
unfolding take_token
allow_found tb now key none =
    some (record tb { buckets = insert tb.buckets key (fresh tb.capacity now) }, true)
allow_found tb now key (some b) =
    if eqb tb.capacity 0
    then none
    else let (b', allowed) = take_token tb.capacity (token_duration tb) now b in
      some (record tb { buckets = insert tb.buckets key b' }, allowed)

unfoldable pub allow : TokenBucket → ℕ → String → Option (TokenBucket × Bool)
unfolding allow_found
allow tb now key = allow_found tb now key (lookup tb.buckets key)

pub record ThrottledError : Type 0 where
  pub key : String
  pub capacity : ℕ
  pub window : ℕ

-- `Record`: the refusal as an error.
abbrev throttled : TokenBucket → String → Bool → Option ThrottledError
throttled tb key true = none
throttled tb key false = some (record { key = key; capacity = tb.capacity; window = tb.window })

unfoldable pub record_update :
    TokenBucket → ℕ → String → Option (TokenBucket × Option ThrottledError)
unfolding allow
record_update tb now key = elim (allow tb now key) [
  | none ↦ none
  | some (tb', allowed) ↦ some (tb', throttled tb key allowed)
]

unfoldable pub reset : TokenBucket → String → TokenBucket
reset tb key = record tb { buckets = delete tb.buckets key }

unfoldable pub reset_all : TokenBucket → TokenBucket
reset_all tb = record tb { buckets = [] }

-- `GetTokens` on a bucket that exists.
unfoldable pub current_tokens : ℕ → ℕ → ℕ → Bucket → ℕ
current_tokens capacity d now b =
    if ltb 0 d
    then (let tokens = b.tokens + (now - b.last_fill) / d in
        if ltb capacity tokens then capacity else tokens)
    else b.tokens

unfoldable pub get_tokens : TokenBucket → ℕ → String → Option ℕ
unfolding current_tokens
get_tokens tb now key = elim (lookup tb.buckets key) [
  | none ↦ some tb.capacity
  | some b ↦
      if eqb tb.capacity 0
      then none
      else some (current_tokens tb.capacity (token_duration tb) now b)
]

-- The test of `CleanupStale`, negated: an entry that stays.
abbrev pub in_use : ℕ → ℕ → Bucket → Bool
in_use ttl now b = not (ltb ttl (now - b.last_accessed))

unfoldable pub cleanup_stale : TokenBucket → ℕ → ℕ → TokenBucket × ℕ
cleanup_stale tb ttl now =
    let left = retain (in_use ttl now) tb.buckets in
    (record tb { buckets = left }, length tb.buckets - length left)

-- `MakeResourceKey`: `fmt.Sprintf` with "%s/%s" or "%s/%s/%s".
unfoldable pub make_resource_key : String → String → String → String
make_resource_key namespace name kind =
    if namespace == "" then kind ++ "/" ++ name else kind ++ "/" ++ namespace ++ "/" ++ name
