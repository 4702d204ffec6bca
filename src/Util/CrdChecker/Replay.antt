-- ===== src/Util/CrdChecker/Replay.antt =====
-- What the cache of crd_checker.go promises: an answer is the last one that the API server gave, unless that
-- is too old or was invalidated. The specification keeps the whole history and no cache.
use Prim.Native.String.{◌++◌}
use virt_platform_autopilot.Prelude.{
  ℕ, ◌-◌, String, ◌==◌, Bool, true, false, ◌||◌, Option, none, some, List, [], ◌∷◌, ltb,
  if◌then◌else◌,
}
use virt_platform_autopilot.Kube.{wrap, Result, ok, err, is_not_found}
use virt_platform_autopilot.Util.CrdChecker.{
  CacheEntry, CrdCache, is_crd_installed, invalidate_cache,
}

-- A call of the checker, with the clock's readings and what the API server answers if it is asked.
pub data Call : Type 0 where
  check : (now stored : ℕ) (name : String) → Result (Unit {0}) → Call
  invalidate : String → Call

-- What the API server said of a CRD and when, and what was invalidated; the latest comes first.
pub data Event : Type 0 where
  said : String → CacheEntry → Event
  invalidated : String → Event

-- The last answer about a CRD that was not invalidated.
abbrev pub last_said : List Event → String → Option CacheEntry
last_said [] name = none
last_said (said other entry ∷ history) name =
    if other == name then some entry else last_said history name
last_said (invalidated other ∷ history) name =
    if other == "" || other == name then none else last_said history name

abbrev pub learn : List Event → ℕ → String → Result (Unit {0}) → Result Bool × List Event
learn history stored name (ok u) =
    (ok true, said name (record { exists = true; timestamp = stored }) ∷ history)
learn history stored name (err e) =
    if is_not_found e
    then (ok false, said name (record { exists = false; timestamp = stored }) ∷ history)
    else (err (wrap ("failed to check CRD " ++ name) e), history)

abbrev pub recall :
    ℕ
    → List Event
    → ℕ
    → ℕ
    → String
    → Result (Unit {0})
    → Option CacheEntry
    → Result Bool × List Event
recall ttl history now stored name answer none = learn history stored name answer
recall ttl history now stored name answer (some entry) =
    if ltb ttl (now - entry.timestamp)
    then learn history stored name answer
    else (ok entry.exists, history)

-- One call of the specification.
abbrev pub specified : ℕ → List Event → Call → List (Result Bool) × List Event
specified ttl history (check now stored name answer) =
    let (r, history') = recall ttl history now stored name answer (last_said history name) in
    (r ∷ [], history')
specified ttl history (invalidate name) = ([], invalidated name ∷ history)

-- One call of the code.
abbrev pub performed : CrdCache → Call → List (Result Bool) × CrdCache
performed cache (check now stored name answer) =
    let (r, cache') = is_crd_installed cache now stored name answer in (r ∷ [], cache')
performed cache (invalidate name) = ([], invalidate_cache cache name)

-- The answers of a run of calls.
unfoldable pub replay : ℕ → List Event → List Call → List (List (Result Bool))
replay ttl history [] = []
replay ttl history (call ∷ calls) =
    (specified ttl history call).0 ∷ replay ttl (specified ttl history call).1 calls

unfoldable pub run : CrdCache → List Call → List (List (Result Bool))
run cache [] = []
run cache (call ∷ calls) = (performed cache call).0 ∷ run (performed cache call).1 calls
