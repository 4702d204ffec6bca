-- ===== src/Engine/Patcher/Enforce/Tokens.antt =====
-- Which of the last steps of `ReconcileAsset` apply an object, and what token pays for it.
use mathlib.Core.Path.{subst}
use virt_platform_autopilot.Prelude.{
  ◌+◌, String, ◌≡◌, refl, sym, ◌∙◌, Bool, true, false, Option, none, some, [], ◌∷◌, ◌++◌,
}
use virt_platform_autopilot.Kube.{Kube, Asset, Result, ok, err, Stage}
use virt_platform_autopilot.Throttling.TokenBucket as Bucket
use virt_platform_autopilot.Throttling.ThrashingDetector as Detector
use virt_platform_autopilot.Engine.Flow.{State, next, modify, ◌>>=◌}
use virt_platform_autopilot.Engine.Flow.Payment.{
  Paid, none_applied, one_applied, Ends, Ends-raise, Ends-bind, Ends-if, continue_stopped,
  SameLimiter,
}
use virt_platform_autopilot.Engine.World.{api_apply}
use virt_platform_autopilot.Engine.Applier
use virt_platform_autopilot.Engine.Flow.Silent.{
  Silent, Silent-modify, Silent-bind, silent_rules, applies, applies-append,
}
use virt_platform_autopilot.Engine.Coalescing.Silent.{coalesce_update-Silent, clear_staging-Silent}
use virt_platform_autopilot.Engine.Patcher.Prepare.{Context, key_of}
use virt_platform_autopilot.Engine.Patcher.Enforce.{
  drift_answer, check_drift, check_coalescing, namespace_answer, check_namespace, update_pause,
  set_pause_annotation, pause_answer, pause_live, report_thrashing, refuse, take_answer,
  gate_answer, pass_gate, report_release, conclude_applied, apply_answer, apply_desired,
}

module _ (K : Kube) (ctx : Context K) where
  open K use {Obj}

  drift_answer-Silent : (desired : Obj) (r : Result Bool) → Silent (drift_answer K ctx desired r)
  unfolding drift_answer
  drift_answer-Silent desired (ok true) = search silent_rules
  drift_answer-Silent desired (ok false) = search silent_rules
  drift_answer-Silent desired (err e) = search silent_rules

  pub check_drift-Silent :
      (desired : Obj) (live : Option Obj) → Silent (check_drift K ctx desired live)
  unfolding check_drift
  check_drift-Silent desired none = search silent_rules
  check_drift-Silent desired (some live) = search (silent_rules, drift_answer-Silent)

  pub check_coalescing-Silent :
      (desired : Obj) (live : Option Obj) (hash : String)
      → Silent (check_coalescing K ctx desired live hash)
  unfolding check_coalescing
  check_coalescing-Silent desired none hash = search silent_rules
  check_coalescing-Silent desired (some live) hash = search (silent_rules, coalesce_update-Silent)

  namespace_answer-Silent : (ns : String) (r : Result Obj) → Silent (namespace_answer K ctx ns r)
  unfolding namespace_answer
  namespace_answer-Silent ns (ok o) = search silent_rules
  namespace_answer-Silent ns (err e) = search silent_rules

  pub check_namespace-Silent : (desired : Obj) → Silent (check_namespace K ctx desired)
  unfolding check_namespace
  check_namespace-Silent desired = search (silent_rules, namespace_answer-Silent)

  update_pause-Silent : (r : Result Obj) → Silent (update_pause K ctx r)
  unfolding update_pause
  update_pause-Silent (err e) = search silent_rules
  update_pause-Silent (ok fresh) = search silent_rules

  set_pause_annotation-Silent : (live : Obj) → Silent (set_pause_annotation K ctx live)
  unfolding set_pause_annotation
  set_pause_annotation-Silent live = search (silent_rules, update_pause-Silent)

  pause_answer-Silent :
      (desired : Obj) (r : Result (Unit {0})) → Silent (pause_answer K ctx desired r)
  unfolding pause_answer
  pause_answer-Silent desired (ok u) = search silent_rules
  pause_answer-Silent desired (err e) = search silent_rules

  pause_live-Silent : (desired : Obj) (live : Option Obj) → Silent (pause_live K ctx desired live)
  unfolding pause_live
  pause_live-Silent desired none = search silent_rules
  pause_live-Silent desired (some live) =
      search (silent_rules, set_pause_annotation-Silent, pause_answer-Silent)

  -- An action that changes the thrashing detector alone.
  detector-Silent :
      {A : Type 0} (f : State K → Detector.ThrashingDetector × A)
      → Silent (λ s. (next (f s).1, record s { thrashing = (f s).0 }))
  detector-Silent f = record { at = λ s. record { same_applies = refl; same_throttle = refl } }

  report_thrashing-Silent : (desired : Obj) → Silent (report_thrashing K ctx desired)
  unfolding report_thrashing
  report_thrashing-Silent desired =
      Silent-bind _ _ (detector-Silent _) (λ first. search silent_rules)

  refuse-Silent :
      (desired : Obj) (live : Option Obj) (e : Bucket.ThrottledError)
      → Silent (refuse K ctx desired live e)
  unfolding refuse
  refuse-Silent desired live e =
      Silent-bind _ _ (detector-Silent _)
        (λ pauses. search (silent_rules, report_thrashing-Silent, pause_live-Silent))

  report_release-Silent :
      (desired : Obj) (r : Result (Option Stage)) → Silent (report_release K ctx desired r)
  unfolding report_release
  report_release-Silent desired (ok (some stage)) = search silent_rules
  report_release-Silent desired (ok none) = search silent_rules
  report_release-Silent desired (err e) = search silent_rules

  success_Silent :
      (f : State K → Detector.ThrashingDetector)
      → Silent (modify (λ s. record s { thrashing = f s }))
  success_Silent f = Silent-modify _ (λ s. record { same_applies = refl; same_throttle = refl })

  conclude_applied-Silent :
      (asset : Asset) (desired : Obj) (live : Option Obj)
      → Silent (conclude_applied K ctx asset desired live)
  unfolding conclude_applied
  conclude_applied-Silent asset desired live =
      search (silent_rules, clear_staging-Silent, report_release-Silent, success_Silent) depth 20

  apply_answer-Silent :
      (asset : Asset) (desired : Obj) (live : Option Obj) (r : Result Bool)
      → Silent (apply_answer K ctx asset desired live r)
  unfolding apply_answer
  apply_answer-Silent asset desired live (ok true) = conclude_applied-Silent asset desired live
  apply_answer-Silent asset desired live (ok false) = search silent_rules
  apply_answer-Silent asset desired live (err e) = search silent_rules depth 9

  refuse-Ends :
      (desired : Obj) (live : Option Obj) (e : Bucket.ThrottledError)
      → Ends (refuse K ctx desired live e)
  unfolding refuse
  refuse-Ends desired live e = Ends-bind _ _ (λ pauses. search (Ends-if, Ends-bind, Ends-raise))

  -- The apply itself, with all that follows it.
  apply_desired_one :
      (asset : Asset) (desired : Obj) (live : Option Obj) (s : State K)
      → (applies (apply_desired K ctx asset desired live s).1.trace ≡ applies s.trace + 1)
        × ((apply_desired K ctx asset desired live s).1.throttle ≡ s.throttle)
  unfolding apply_desired ◌>>=◌
  apply_desired_one asset desired live s =
      let (r, cluster') = Applier.apply K desired s.cluster in
      let t : State K = record s {
        cluster = cluster';
        trace = s.trace ++ api_apply (K.id_of desired) ∷ [];
      } in
      let h = (apply_answer-Silent asset desired live r).at t in
      (h.same_applies ∙ applies-append s.trace (api_apply (K.id_of desired)), h.same_throttle)

  gate-Paid_at :
      (asset : Asset) (desired : Obj) (live : Option Obj) (s : State K)
      (o : Option (Bucket.TokenBucket × Option Bucket.ThrottledError))
      → Bucket.record_update s.throttle ctx.now (key_of K desired) ≡ o
      → Paid SameLimiter ctx.now s
          ((take_answer K ctx o >>= gate_answer K ctx desired live >>= λ u.
              apply_desired K ctx asset desired live)
            s).1
  unfolding take_answer gate_answer ◌>>=◌
  gate-Paid_at asset desired live s none e = none_applied refl
  gate-Paid_at asset desired live s (some (th, none)) e =
      let t : State K = record s { throttle = th } in
      let h = apply_desired_one asset desired live t in
      one_applied s.throttle (key_of K desired) h.0 refl (
        subst (λ x. Bucket.record_update s.throttle ctx.now (key_of K desired) ≡ some (x, none))
          (sym h.1) e)
  gate-Paid_at asset desired live s (some (th, some x)) e =
      let t : State K = record s { throttle = th } in
      continue_stopped SameLimiter ctx.now (refuse K ctx desired live x t).0
        (λ u. apply_desired K ctx asset desired live) s (refuse K ctx desired live x t).1
        (λ a. (refuse-Ends desired live x).at t a)
        ((refuse-Silent desired live x).at t).same_applies

  -- An apply behind the gate is paid for by a token of the limiter in front of it.
  pub gate-Paid :
      (asset : Asset) (desired : Obj) (live : Option Obj) (s : State K)
      → Paid SameLimiter ctx.now s
          ((pass_gate K ctx desired live >>= λ u. apply_desired K ctx asset desired live) s).1
  unfolding pass_gate ◌>>=◌
  gate-Paid asset desired live s =
      gate-Paid_at asset desired live s (Bucket.record_update s.throttle ctx.now (key_of K desired))
        refl
