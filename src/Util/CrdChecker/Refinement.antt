-- ===== src/Util/CrdChecker/Refinement.antt =====
-- The cache of crd_checker.go answers every run of calls as its specification does.
use mathlib.Core.Path.{subst}
use virt_platform_autopilot.Prelude.{
  ℕ, ◌-◌, String, ◌==◌, ◌≡◌, refl, sym, ap, ◌∙◌, inl, inr, Bool, true, false, Bool-cases, Option,
  none, some, List, [], ◌∷◌, ltb, if◌then◌else◌,
}
use virt_platform_autopilot.Prelude.Maps.{lookup, lookup-insert, lookup-delete}
use virt_platform_autopilot.Kube.{Result, ok, err, is_not_found}
use virt_platform_autopilot.Util.CrdChecker.{
  CacheEntry, CrdCache, fresh_answer, get, set, query, use_cache, is_crd_installed,
  invalidate_cache, new_crd_checker,
}
use virt_platform_autopilot.Util.CrdChecker.Replay.{
  Call, check, invalidate, Event, said, invalidated, last_said, learn, recall, replay, run,
}

-- The cache holds the last answers of the history, and nothing else.
pub record Represents (history : List Event) (ttl : ℕ) (cache : CrdCache) : Type 0 where
  pub same_ttl : cache.ttl ≡ ttl
  pub same_entries : (name : String) → lookup cache.entries name ≡ last_said history name

set-Represents :
    (history : List Event) (ttl : ℕ) (cache : CrdCache) (now : ℕ) (name : String) (b : Bool)
    → Represents history ttl cache
    → Represents
        (said name (record { exists = b; timestamp = now }) ∷ history)
        ttl
        (set cache now name b)
unfolding set
set-Represents history ttl cache now name b r = record {
  same_ttl = r.same_ttl;
  same_entries = λ other.
      let entry : CacheEntry = record { exists = b; timestamp = now } in
      lookup-insert cache.entries name other entry
      ∙ ap (λ o. if name == other then some entry else o) (r.same_entries other);
}

invalidate-Represents :
    (history : List Event) (ttl : ℕ) (cache : CrdCache) (name : String)
    → Represents history ttl cache
    → Represents (invalidated name ∷ history) ttl (invalidate_cache cache name)
unfolding invalidate_cache lookup
invalidate-Represents history ttl cache name r = record {
  same_ttl = r.same_ttl;
  same_entries = λ other. elim (Bool-cases (name == "")) [
    | inl e ↦ rw e refl
    | inr e ↦ rw e (
        lookup-delete cache.entries name other
        ∙ ap (λ o. if name == other then none else o) (r.same_entries other))
  ];
}

-- The two answer alike, and the cache goes on representing the history.
record Agree (ttl : ℕ) (x : Result Bool × CrdCache) (y : Result Bool × List Event) : Type 0 where
  same_answer : x.0 ≡ y.0
  represents : Represents y.1 ttl x.1

query-Agree :
    (history : List Event) (ttl : ℕ) (cache : CrdCache) (stored : ℕ) (name : String)
    (answer : Result (Unit {0}))
    → Represents history ttl cache
    → Agree ttl (query cache stored name answer) (learn history stored name answer)
unfolding query
query-Agree history ttl cache stored name (ok u) r = record {
  same_answer = refl;
  represents = set-Represents history ttl cache stored name true r;
}
query-Agree history ttl cache stored name (err e) r = elim (Bool-cases (is_not_found e)) [
  | inl n ↦ rw n (record {
    same_answer = refl;
    represents = set-Represents history ttl cache stored name false r;
  })
  | inr n ↦ rw n (record { same_answer = refl; represents = r })
]

recall-Agree :
    (history : List Event) (ttl : ℕ) (cache : CrdCache) (now stored : ℕ) (name : String)
    (answer : Result (Unit {0})) (o : Option CacheEntry)
    → Represents history ttl cache
    → Agree ttl
        (use_cache cache stored name answer (fresh_answer ttl now o))
        (recall ttl history now stored name answer o)
unfolding use_cache fresh_answer
recall-Agree history ttl cache now stored name answer none r =
    query-Agree history ttl cache stored name answer r
recall-Agree history ttl cache now stored name answer (some entry) r =
    elim (Bool-cases (ltb ttl (now - entry.timestamp))) [
      | inl old ↦ rw old (query-Agree history ttl cache stored name answer r)
      | inr young ↦ rw young (record { same_answer = refl; represents = r })
    ]

is_crd_installed-Agree :
    (history : List Event) (ttl : ℕ) (cache : CrdCache) (now stored : ℕ) (name : String)
    (answer : Result (Unit {0}))
    → Represents history ttl cache
    → Agree ttl
        (is_crd_installed cache now stored name answer)
        (recall ttl history now stored name answer (last_said history name))
unfolding is_crd_installed get
is_crd_installed-Agree history ttl cache now stored name answer r =
    let wanted = recall ttl history now stored name answer (last_said history name) in
    subst
      (λ t.
        Agree ttl
          (use_cache cache stored name answer (fresh_answer t now (lookup cache.entries name)))
          wanted)
      (sym r.same_ttl)
      (subst (λ o. Agree ttl (use_cache cache stored name answer (fresh_answer ttl now o)) wanted)
        (sym (r.same_entries name))
        (recall-Agree history ttl cache now stored name answer (last_said history name) r))

run-replay :
    (calls : List Call) (history : List Event) (ttl : ℕ) (cache : CrdCache)
    → Represents history ttl cache
    → run cache calls ≡ replay ttl history calls
unfolding run replay
run-replay [] history ttl cache r = refl
run-replay (check now stored name answer ∷ calls) history ttl cache r =
    let a = is_crd_installed-Agree history ttl cache now stored name answer r in
    let rest = run-replay calls _ ttl _ a.represents in cc (a.same_answer, rest)
run-replay (invalidate name ∷ calls) history ttl cache r =
    ap (λ rs. [] ∷ rs) (run-replay calls _ ttl _ (invalidate-Represents history ttl cache name r))

-- Any run of IsCRDInstalled and InvalidateCache calls on a new checker answers as the
-- specification without a cache does: with the API server's last answer about the CRD, if it was
-- not invalidated and is at most 30 seconds old, and else with a new one, which a NotFound makes
-- false and another error fails.
pub new_crd_checker-replay :
    (calls : List Call) → run new_crd_checker calls ≡ replay new_crd_checker.ttl [] calls
unfolding new_crd_checker lookup
new_crd_checker-replay calls =
    run-replay calls [] _ new_crd_checker (record { same_ttl = refl; same_entries = λ name. refl })
