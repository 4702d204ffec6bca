-- ===== src/Throttling/ThrashingDetector.antt =====
-- pkg/throttling/thrashing_detector.go: consecutive refusals of one resource, and the one-shot gate of
-- the thrashing metric.
pub mod Episodes
use virt_platform_autopilot.Prelude.{
  ℕ, ◌+◌, String, Bool, true, false, not, ◌&&◌, Option, none, some, [], leb, if◌then◌else◌,
}
use virt_platform_autopilot.Prelude.Maps.{Map, lookup, insert, delete}

abbrev pub thrashing_threshold : ℕ
thrashing_threshold = 3

pub record ThrashingState : Type 0 where
  pub consecutive_throttles : ℕ
  pub metric_emitted : Bool

pub record ThrashingDetector : Type 0 where
  pub states : Map ThrashingState

unfoldable pub new_thrashing_detector : ThrashingDetector
new_thrashing_detector = record { states = [] }

-- The state that `RecordThrottle` leaves for the key.
abbrev throttled_once : Option ThrashingState → ThrashingState
throttled_once none = record { consecutive_throttles = 1; metric_emitted = false }
throttled_once (some state) = record state {
  consecutive_throttles = state.consecutive_throttles + 1;
}

unfoldable pub record_throttle : ThrashingDetector → String → ThrashingDetector × Bool
record_throttle td key =
    let state = throttled_once (lookup td.states key) in
    (
      record { states = insert td.states key state },
      leb thrashing_threshold state.consecutive_throttles,
    )

unfoldable pub record_success : ThrashingDetector → String → ThrashingDetector
record_success td key = record { states = delete td.states key }

abbrev emit : ThrashingDetector → String → Option ThrashingState → ThrashingDetector × Bool
emit td key none = (td, false)
emit td key (some state) =
    if leb thrashing_threshold state.consecutive_throttles && not state.metric_emitted
    then (record { states = insert td.states key (record state { metric_emitted = true }) }, true)
    else (td, false)

unfoldable pub should_emit_metric : ThrashingDetector → String → ThrashingDetector × Bool
should_emit_metric td key = emit td key (lookup td.states key)

abbrev attempts : Option ThrashingState → ℕ
attempts none = 0
attempts (some state) = state.consecutive_throttles

unfoldable pub get_attempts : ThrashingDetector → String → ℕ
get_attempts td key = attempts (lookup td.states key)

unfoldable pub reset : ThrashingDetector → String → ThrashingDetector
reset td key = record { states = delete td.states key }

unfoldable pub reset_all : ThrashingDetector → ThrashingDetector
reset_all td = record { states = [] }
