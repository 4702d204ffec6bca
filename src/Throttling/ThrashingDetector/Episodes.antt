-- ===== src/Throttling/ThrashingDetector/Episodes.antt =====
-- Episodes of thrashing_detector.go: from one success or reset of a resource to the next.
use mathlib.Core.Path.{subst}
use virt_platform_autopilot.Prelude.{
  ℕ, ◌+◌, ◌≤◌, ◌≡◌, refl, String, Bool, true, false, Option, none, some, List, [], ◌∷◌, arith,
  Bool-cases, inl, inr, leb, eqb, ◌==◌, eq_iff, ◌&&◌, if◌then◌else◌, eq_refl,
}
use virt_platform_autopilot.Prelude.Maps.{lookup, delete, lookup-insert, lookup-delete}
use virt_platform_autopilot.Throttling.ThrashingDetector.{
  ThrashingState, ThrashingDetector, thrashing_threshold, attempts, throttled_once, record_throttle,
  record_success, should_emit_metric, emit, get_attempts, reset,
}

-- The calls on a detector.
pub data Op : Type 0 where
  throttle success emit_check restart : String → Op

abbrev pub apply : ThrashingDetector → Op → ThrashingDetector × Bool
apply td (throttle key) = record_throttle td key
apply td (success key) = (record_success td key, false)
apply td (emit_check key) = should_emit_metric td key
apply td (restart key) = (reset td key, false)

pub run : ThrashingDetector → List Op → ThrashingDetector
run td [] = td
run td (op ∷ ops) = run (apply td op).0 ops

-- The refusals of `key` in a row, counted from the calls alone.
pub in_a_row : String → ℕ → List Op → ℕ
in_a_row key n [] = n
in_a_row key n (throttle j ∷ ops) = in_a_row key (if j == key then n + 1 else n) ops
in_a_row key n (success j ∷ ops) = in_a_row key (if j == key then 0 else n) ops
in_a_row key n (emit_check j ∷ ops) = in_a_row key n ops
in_a_row key n (restart j ∷ ops) = in_a_row key (if j == key then 0 else n) ops

throttled_once-attempts :
    (o : Option ThrashingState) → (throttled_once o).consecutive_throttles ≡ attempts o + 1
throttled_once-attempts none = refl
throttled_once-attempts (some s) = refl

-- Whether the metric of `key` was emitted in this episode.
abbrev emitted : Option ThrashingState → ℕ
emitted none = 0
emitted (some s) = if s.metric_emitted then 1 else 0

throttled_once-emitted : (o : Option ThrashingState) → emitted (some (throttled_once o)) ≡ emitted o
throttled_once-emitted none = refl
throttled_once-emitted (some s) = refl

pub get_attempts-record_throttle :
    (td : ThrashingDetector) (j key : String)
    → get_attempts (record_throttle td j).0 key
      ≡ (if j == key then get_attempts td key + 1 else get_attempts td key)
unfolding get_attempts record_throttle
get_attempts-record_throttle td j key = elim (Bool-cases (j == key)) [
  | inl p ↦
      rw (lookup-insert, p)
        (subst
          (λ k.
            attempts (some (throttled_once (lookup td.states j)))
            ≡ attempts (lookup td.states k) + 1)
          ((eq_iff j key).0 p) (throttled_once-attempts (lookup td.states j)))
  | inr p ↦ rw (lookup-insert, p)
]

get_attempts-delete :
    (td : ThrashingDetector) (j key : String)
    → get_attempts (record { states = delete td.states j }) key
      ≡ (if j == key then 0 else get_attempts td key)
unfolding get_attempts
get_attempts-delete td j key = elim (Bool-cases (j == key)) [
  | inl p ↦ rw (lookup-delete, p)
  | inr p ↦ rw (lookup-delete, p)
]

attempts-emit :
    (td : ThrashingDetector) (j key : String) (o : Option ThrashingState)
    → lookup td.states j ≡ o
    → attempts (lookup (emit td j o).0.states key) ≡ attempts (lookup td.states key)
attempts-emit td j key none e = refl
attempts-emit td j key (some s) e = elim (Bool-cases (j == key)) [
  | inl p ↦
      let same : lookup td.states key ≡ some s =
        subst (λ k. lookup td.states k ≡ some s) ((eq_iff j key).0 p) e in
      ground (arith, same, lookup-insert td.states j key (record s { metric_emitted = true }))
  | inr p ↦ ground (arith, lookup-insert td.states j key (record s { metric_emitted = true }))
]

pub get_attempts-should_emit_metric :
    (td : ThrashingDetector) (j key : String)
    → get_attempts (should_emit_metric td j).0 key ≡ get_attempts td key
unfolding get_attempts should_emit_metric
get_attempts-should_emit_metric td j key = attempts-emit td j key (lookup td.states j) refl

-- After any calls the count of a resource is the number of its refusals since its last success or
-- reset, or since the start on top of its first count.
pub get_attempts-run :
    (td : ThrashingDetector) (key : String) (ops : List Op)
    → get_attempts (run td ops) key ≡ in_a_row key (get_attempts td key) ops
unfolding run in_a_row record_success reset
get_attempts-run td key [] = refl
get_attempts-run td key (throttle j ∷ ops) =
    rw (← get_attempts-record_throttle td j key) (get_attempts-run (record_throttle td j).0 key ops)
get_attempts-run td key (success j ∷ ops) =
    rw (← get_attempts-delete td j key) (get_attempts-run (record_success td j) key ops)
get_attempts-run td key (emit_check j ∷ ops) =
    rw (← get_attempts-should_emit_metric td j key)
      (get_attempts-run (should_emit_metric td j).0 key ops)
get_attempts-run td key (restart j ∷ ops) =
    rw (← get_attempts-delete td j key) (get_attempts-run (reset td j) key ops)

abbrev emitted_now : String → Op → Bool → ℕ
emitted_now key (emit_check j) r = if j == key && r then 1 else 0
emitted_now key _ r = 0

-- How often `ShouldEmitMetric` lets the metric of `key` through.
pub emissions : String → ThrashingDetector → List Op → ℕ
emissions key td [] = 0
emissions key td (op ∷ ops) = emitted_now key op (apply td op).1 + emissions key (apply td op).0 ops

abbrev ends : String → Op → ℕ
ends key (success j) = if j == key then 1 else 0
ends key (restart j) = if j == key then 1 else 0
ends key _ = 0

-- How many episodes of `key` the calls end.
pub episodes : String → List Op → ℕ
episodes key [] = 0
episodes key (op ∷ ops) = ends key op + episodes key ops

emit_once :
    (td : ThrashingDetector) (j key : String) (o : Option ThrashingState)
    → lookup td.states j ≡ o
    → (if j == key && (emit td j o).1 then 1 else 0) + emitted (lookup td.states key)
      ≤ emitted (lookup (emit td j o).0.states key)
emit_once td j key none e = ground arith
emit_once td j key (some s) e = elim (Bool-cases (j == key)) [
  | inl p ↦
      let same : lookup td.states key ≡ some s =
        subst (λ k. lookup td.states k ≡ some s) ((eq_iff j key).0 p) e in
      ground (arith, same, lookup-insert td.states j key (record s { metric_emitted = true }))
  | inr p ↦ ground (arith, lookup-insert td.states j key (record s { metric_emitted = true }))
]

emitted-throttle :
    (td : ThrashingDetector) (j key : String)
    → emitted (lookup (record_throttle td j).0.states key) ≡ emitted (lookup td.states key)
unfolding record_throttle
emitted-throttle td j key = elim (Bool-cases (j == key)) [
  | inl p ↦
      rw (lookup-insert, p)
        (subst
          (λ k. emitted (some (throttled_once (lookup td.states j))) ≡ emitted (lookup td.states k))
          ((eq_iff j key).0 p) (throttled_once-emitted (lookup td.states j)))
  | inr p ↦ rw (lookup-insert, p)
]

emitted-le : (o : Option ThrashingState) → emitted o ≤ 1
emitted-le none = omega arith
emitted-le (some s) = ground arith

apply-emitted :
    (td : ThrashingDetector) (key : String) (op : Op)
    → emitted_now key op (apply td op).1 + emitted (lookup td.states key)
      ≤ emitted (lookup (apply td op).0.states key) + ends key op
unfolding should_emit_metric record_success reset
apply-emitted td key (throttle j) = omega (arith, emitted-throttle td j key)
apply-emitted td key (emit_check j) = omega (arith, emit_once td j key (lookup td.states j) refl)
apply-emitted td key (success j) =
    ground (arith, lookup-delete td.states j key, emitted-le (lookup td.states key))
apply-emitted td key (restart j) =
    ground (arith, lookup-delete td.states j key, emitted-le (lookup td.states key))

emissions-le :
    (key : String) (td : ThrashingDetector) (ops : List Op)
    → emissions key td ops + emitted (lookup td.states key) ≤ 1 + episodes key ops
unfolding emissions episodes
emissions-le key td [] = omega (arith, emitted-le (lookup td.states key))
emissions-le key td (op ∷ ops) =
    omega (arith, apply-emitted td key op, emissions-le key (apply td op).0 ops)

-- ShouldEmitMetric lets the metric of a resource through at most once more often than its
-- successes and resets.
pub emissions_bounded :
    (key : String) (td : ThrashingDetector) (ops : List Op)
    → emissions key td ops ≤ 1 + episodes key ops
emissions_bounded key td ops = omega (arith, emissions-le key td ops)

emit_exact :
    (td : ThrashingDetector) (key : String) (o : Option ThrashingState)
    → (emit td key o).1 ≡ (leb thrashing_threshold (attempts o) && eqb (emitted o) 0)
emit_exact td key none = refl
emit_exact td key (some s) = ground arith

-- A check lets the metric through exactly when the resource has reached the threshold in this
-- episode and the metric was not emitted before.
pub should_emit_metric_exact :
    (td : ThrashingDetector) (key : String)
    → (should_emit_metric td key).1
      ≡ (leb thrashing_threshold (get_attempts td key) && eqb (emitted (lookup td.states key)) 0)
unfolding should_emit_metric get_attempts
should_emit_metric_exact td key = emit_exact td key (lookup td.states key)

pub pauses_at :
    (td : ThrashingDetector) (key : String)
    → (record_throttle td key).1 ≡ leb thrashing_threshold (get_attempts td key + 1)
unfolding record_throttle get_attempts
pauses_at td key = rw (throttled_once-attempts (lookup td.states key))

attempts_after_success :
    (td : ThrashingDetector) (key : String) → get_attempts (record_success td key) key ≡ 0
unfolding record_success
attempts_after_success td key = rw (get_attempts-delete td key key, eq_refl)

-- After a success and any calls, a refusal asks for a pause exactly when it is at least the third
-- since the last success or reset.
pub record_throttle-pauses :
    (td : ThrashingDetector) (key : String) (ops : List Op)
    → (record_throttle (run (record_success td key) ops) key).1
      ≡ leb thrashing_threshold (in_a_row key 0 ops + 1)
record_throttle-pauses td key ops = ground (
  arith,
  pauses_at (run (record_success td key) ops) key,
  get_attempts-run (record_success td key) key ops,
  attempts_after_success td key,
)
