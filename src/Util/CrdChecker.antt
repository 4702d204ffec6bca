-- ===== src/Util/CrdChecker.antt =====
-- pkg/util/crd_checker.go: whether a CRD is installed, with a cache that answers for 30 seconds. The API
-- server's answer, and the readings of the clock, are arguments.
pub mod Replay
pub mod Refinement
use Prim.Native.String.{◌++◌}
use virt_platform_autopilot.Prelude.{
  ℕ, ◌-◌, ◌*◌, String, ◌==◌, Bool, true, false, Option, none, some, [], ltb, if◌then◌else◌,
}
use virt_platform_autopilot.Prelude.Maps.{Map, lookup, insert, delete}
use virt_platform_autopilot.Kube.{Error, wrap, Result, ok, err, is_not_found}

pub record CacheEntry : Type 0 where
  pub exists : Bool
  pub timestamp : ℕ

pub record CrdCache : Type 0 where
  pub entries : Map CacheEntry
  pub ttl : ℕ

-- `NewCRDChecker`: 30 seconds, in nanoseconds.
unfoldable pub new_crd_checker : CrdCache
new_crd_checker = record { entries = []; ttl = 30 * 1000000000 }

fresh_answer : ℕ → ℕ → Option CacheEntry → Option Bool
fresh_answer ttl now none = none
fresh_answer ttl now (some entry) =
    if ltb ttl (now - entry.timestamp) then none else some entry.exists

-- `crdCache.get`
unfoldable pub get : CrdCache → ℕ → String → Option Bool
unfolding fresh_answer
get cache now name = fresh_answer cache.ttl now (lookup cache.entries name)

-- `crdCache.set`
unfoldable pub set : CrdCache → ℕ → String → Bool → CrdCache
set cache now name exists = record cache {
  entries = insert cache.entries name (record { exists = exists; timestamp = now });
}

query : CrdCache → ℕ → String → Result (Unit {0}) → Result Bool × CrdCache
query cache stored name (ok u) = (ok true, set cache stored name true)
query cache stored name (err e) =
    if is_not_found e
    then (ok false, set cache stored name false)
    else (err (wrap ("failed to check CRD " ++ name) e), cache)

use_cache : CrdCache → ℕ → String → Result (Unit {0}) → Option Bool → Result Bool × CrdCache
unfolding query
use_cache cache stored name answer (some exists) = (ok exists, cache)
use_cache cache stored name answer none = query cache stored name answer

-- `IsCRDInstalled`: the clock is read at the look-up and, after a query, when its answer is kept.
unfoldable pub is_crd_installed :
    CrdCache → ℕ → ℕ → String → Result (Unit {0}) → Result Bool × CrdCache
unfolding use_cache
is_crd_installed cache now stored name answer =
    use_cache cache stored name answer (get cache now name)

-- `InvalidateCache`: one name, or all of them.
unfoldable pub invalidate_cache : CrdCache → String → CrdCache
invalidate_cache cache name = record cache {
  entries = if name == "" then [] else delete cache.entries name;
}
