-- ===== src/Engine/Patcher/Enforce/Gate.antt =====
-- Every way through the anti-thrashing gate of `ReconcileAsset` in pkg/engine/patcher.go.
use mathlib.Core.Path.{subst}
use virt_platform_autopilot.Prelude.{
  List, ℕ, ◌+◌, ◌≤◌, ◌<◌, ◌≡◌, refl, sym, ap, ◌∙◌, String, Bool, true, false, Bool-cases, inl, inr,
  Option, none, some, eq_refl, leb, arith,
}
use virt_platform_autopilot.Kube.{Kube, Error, message, throttled}
use virt_platform_autopilot.Throttling.TokenBucket as Bucket
use virt_platform_autopilot.Throttling.ThrashingDetector as Detector
use virt_platform_autopilot.Throttling.ThrashingDetector.Episodes.{
  pauses_at, get_attempts-should_emit_metric, get_attempts-record_throttle,
}
use virt_platform_autopilot.Engine.World.{Effect, event, thrashing_detected}
use virt_platform_autopilot.Engine.Flow.{State, Flow, next, fail, ◌>>=◌, ◌>>◌, raise, emit_if}
use virt_platform_autopilot.Engine.Flow.Runs.{bind_next}
use virt_platform_autopilot.Engine.Patcher.Prepare.{Context, key_of}
use virt_platform_autopilot.Engine.Patcher.Enforce.Pause.{Pausing, pause_live-Pauses}
use virt_platform_autopilot.Engine.Patcher.Enforce.{
  pass_gate, take_token, take_answer, gate_answer, refuse, report_thrashing, pause_live,
}

threshold : (a b : ℕ) → leb a b ≡ true → a ≤ b
threshold a b e = ground arith

below : (a b : ℕ) → leb a b ≡ false → b < a
below a b e = ground arith

module _ (K : Kube) (ctx : Context K) (desired : Kube.Obj K) where
  abbrev key : String
  key = key_of K desired

  abbrev pub attempts : State K → ℕ
  attempts s = Detector.get_attempts s.thrashing key

  abbrev taken : State K → Option (Bucket.TokenBucket × Option Bucket.ThrottledError)
  taken s = Bucket.record_update s.throttle ctx.now key

  -- What the gate answers and leaves, by what the limiter says.
  pub data Gate (live : Option (Kube.Obj K)) (s : State K) (r : Flow (Unit {0})) (t : State K)
      : Type 0 where
    granted :
        taken s ≡ some (t.throttle, none)
        → t.cluster ≡ s.cluster
        → t.thrashing ≡ s.thrashing
        → r ≡ next tt
        → Gate live s r t
    delayed :
        (e : Bucket.ThrottledError)
        → taken s ≡ some (t.throttle, some e)
        → attempts s + 1 < Detector.thrashing_threshold
        → t.cluster ≡ s.cluster
        → attempts t ≡ attempts s + 1
        → r ≡ fail (throttled e)
        → Gate live s r t
    paused :
        (e : Bucket.ThrottledError)
        → taken s ≡ some (t.throttle, some e)
        → Detector.thrashing_threshold ≤ attempts s + 1
        → Pausing K live s.cluster t.cluster
        → attempts t ≡ attempts s + 1
        → r ≡ fail (message "reconciliation paused due to edit war")
        → Gate live s r t
    panicked : taken s ≡ none → t ≡ s → ((a : Unit {0}) → ¬ (r ≡ next a)) → Gate live s r t

  -- A step that goes on and keeps the cluster, the limiter and the count.
  record Keeps (s : State K) (p : Flow (Unit {0}) × State K) : Type 0 where
    goes : p.0 ≡ next tt
    same_cluster : p.1.cluster ≡ s.cluster
    same_throttle : p.1.throttle ≡ s.throttle
    same_attempts : attempts p.1 ≡ attempts s

  emit_if-Keeps : (b : Bool) (x : Effect) (s : State K) → Keeps s (emit_if {K = K} b x s)
  emit_if-Keeps true x s = record {
    goes = refl;
    same_cluster = refl;
    same_throttle = refl;
    same_attempts = refl;
  }
  emit_if-Keeps false x s = record {
    goes = refl;
    same_cluster = refl;
    same_throttle = refl;
    same_attempts = refl;
  }

  counted :
      {s : State K} {td : Detector.ThrashingDetector} {es : List Effect}
      {p : Flow (Unit {0}) × State K}
      → Keeps (record s { thrashing = td; trace = es }) p
      → Detector.get_attempts td key ≡ attempts s
      → Keeps s p
  counted h e = record {
    goes = h.goes;
    same_cluster = h.same_cluster;
    same_throttle = h.same_throttle;
    same_attempts = h.same_attempts ∙ e;
  }

  report_thrashing-Keeps : (s : State K) → Keeps s (report_thrashing K ctx desired s)
  unfolding report_thrashing ◌>>=◌
  report_thrashing-Keeps s = elim (Bool-cases (Detector.should_emit_metric s.thrashing key).1) [
    | inl p ↦ rw p (
        counted (emit_if-Keeps ctx.has_recorder (event thrashing_detected (K.id_of desired)) _)
          (get_attempts-should_emit_metric s.thrashing key key))
    | inr p ↦ rw p (record {
      goes = refl;
      same_cluster = refl;
      same_throttle = refl;
      same_attempts = get_attempts-should_emit_metric s.thrashing key key;
    })
  ]

  -- `t`, after the refusal was counted.
  abbrev refused : State K → Bucket.TokenBucket → State K
  refused s tb = record s {
    throttle = tb;
    thrashing = (Detector.record_throttle s.thrashing key).0;
  }

  goes_on : {p : Flow (Unit {0}) × State K} → p.0 ≡ next tt → p ≡ (next tt, p.1)
  goes_on {p} e = ap (λ (r : Flow (Unit {0})). (r, p.1)) e

  abbrev edit_war : Error
  edit_war = message "reconciliation paused due to edit war"

  paused_run :
      (live : Option (Kube.Obj K)) (s : State K) (tb : Bucket.TokenBucket)
      (e : Bucket.ThrottledError)
      → taken s ≡ some (tb, some e)
      → Detector.thrashing_threshold ≤ attempts s + 1
      → attempts (refused s tb) ≡ attempts s + 1
      → let p =
          (report_thrashing K ctx desired
              >> (pause_live K ctx desired live >> raise {A = Unit {0}} edit_war))
            (refused s tb) in
        Gate live s p.0 p.1
  paused_run live s tb e h l a =
      let k = report_thrashing-Keeps (refused s tb) in
      let u = (report_thrashing K ctx desired (refused s tb)).1 in
      let q = pause_live-Pauses K ctx desired live u in
      let v = (pause_live K ctx desired live u).1 in
      rw
        (bind_next (report_thrashing K ctx desired)
          (λ x. pause_live K ctx desired live >> raise {A = Unit {0}} edit_war) (refused s tb) u tt
          (goes_on k.goes))
        (rw
          (bind_next (pause_live K ctx desired live) (λ x. raise {A = Unit {0}} edit_war) u v tt
            (goes_on q.goes))
          (paused e (h ∙ ap (λ x. some (x, some e)) (sym (q.same_throttle ∙ k.same_throttle))) l
            (subst (λ c. Pausing K live c v.cluster) k.same_cluster q.pausing)
            (ap (λ x. Detector.get_attempts x key) q.same_thrashing ∙ k.same_attempts ∙ a) refl))

  delayed_run :
      (live : Option (Kube.Obj K)) (s : State K) (tb : Bucket.TokenBucket)
      (e : Bucket.ThrottledError) (x : Effect)
      → taken s ≡ some (tb, some e)
      → attempts s + 1 < Detector.thrashing_threshold
      → attempts (refused s tb) ≡ attempts s + 1
      → let p = (emit_if ctx.has_recorder x >> raise {A = Unit {0}} (throttled e)) (refused s tb) in
        Gate live s p.0 p.1
  delayed_run live s tb e x h l a =
      let k = emit_if-Keeps ctx.has_recorder x (refused s tb) in
      let u = (emit_if {K = K} ctx.has_recorder x (refused s tb)).1 in
      rw
        (bind_next (emit_if ctx.has_recorder x) (λ x. raise {A = Unit {0}} (throttled e))
          (refused s tb) u tt (goes_on k.goes))
        (delayed e (h ∙ ap (λ x. some (x, some e)) (sym k.same_throttle)) l k.same_cluster
          (k.same_attempts ∙ a) refl)

  counts : (s : State K) (tb : Bucket.TokenBucket) → attempts (refused s tb) ≡ attempts s + 1
  counts s tb = get_attempts-record_throttle s.thrashing key key ∙ (rw eq_refl refl)

  refuse-Gate :
      (live : Option (Kube.Obj K)) (s : State K) (tb : Bucket.TokenBucket)
      (e : Bucket.ThrottledError)
      → taken s ≡ some (tb, some e)
      → let p = refuse K ctx desired live e (record s { throttle = tb }) in Gate live s p.0 p.1
  unfolding refuse ◌>>=◌
  refuse-Gate live s tb e h = elim (Bool-cases (Detector.record_throttle s.thrashing key).1) [
    | inl p ↦ rw p (
        paused_run live s tb e h (threshold _ _ (sym (pauses_at s.thrashing key) ∙ p))
          (counts s tb))
    | inr p ↦ rw p (
        delayed_run live s tb e _ h (below _ _ (sym (pauses_at s.thrashing key) ∙ p)) (counts s tb))
  ]

  gate_answer-Gate :
      (live : Option (Kube.Obj K)) (s : State K)
      (o : Option (Bucket.TokenBucket × Option Bucket.ThrottledError))
      → taken s ≡ o
      → let p = (take_answer K ctx o >>= gate_answer K ctx desired live) s in Gate live s p.0 p.1
  unfolding take_answer gate_answer ◌>>=◌
  gate_answer-Gate live s none h = panicked h refl (λ a r. cc)
  gate_answer-Gate live s (some (tb, none)) h = granted h refl refl refl
  gate_answer-Gate live s (some (tb, some e)) h = refuse-Gate live s tb e h

  -- The gate lets an update pass exactly where the limiter grants a token, and panics where
  -- Record does. It counts a refusal: the first two in a row fail with the limiter's error and
  -- change no cluster object; from the third on it fails after trying to write the pause
  -- annotation on a fresh copy of the live object, if there is one that can be read.
  pub pass_gate-Gate :
      (live : Option (Kube.Obj K)) (s : State K)
      → Gate live s (pass_gate K ctx desired live s).0 (pass_gate K ctx desired live s).1
  unfolding pass_gate take_token ◌>>=◌
  pass_gate-Gate live s = gate_answer-Gate live s (taken s) refl
