-- ===== src/Engine/Patcher/Enforce/Pause.antt =====
-- The pause of an edit war in `ReconcileAsset` of pkg/engine/patcher.go: the annotation on a fresh copy.
use virt_platform_autopilot.Prelude.{◌≡◌, refl, Option, none, some}
use virt_platform_autopilot.Prelude.Maps.{insert}
use virt_platform_autopilot.Kube.{Kube, Error, Result, ok, err}
use virt_platform_autopilot.Overrides.Validation.{annotation_reconcile_paused}
use virt_platform_autopilot.Engine.Flow.{State, Flow, next, ◌>>=◌}
use virt_platform_autopilot.Engine.Patcher.Prepare.{Context}
use virt_platform_autopilot.Engine.Patcher.Enforce.{
  pause_live, pause_answer, set_pause_annotation, update_pause,
}

module _ (K : Kube) where
  open K use {Obj, Cluster, id_of, annotations, set_annotations, get, update}

  -- The cluster after the attempt to pause a live object: untouched where there is none or its fresh
  -- copy cannot be read, and else what the update of the annotated copy leaves.
  pub data Pausing (live : Option Obj) (c : Cluster) : Cluster → Type 0 where
    no_object : live ≡ none → Pausing live c c
    unread : (o : Obj) (e : Error) → live ≡ some o → get (id_of o) c ≡ err e → Pausing live c c
    annotated :
        (o fresh : Obj)
        → live ≡ some o
        → get (id_of o) c ≡ ok fresh
        → Pausing live c
            (update
              (set_annotations fresh
                (insert (annotations fresh) annotation_reconcile_paused "true"))
              c).1

module _ (K : Kube) (ctx : Context K) (desired : Kube.Obj K) where
  pub record Pauses (live : Option (Kube.Obj K)) (s : State K) (p : Flow (Unit {0}) × State K)
      : Type 0 where
    pub goes : p.0 ≡ next tt
    pub pausing : Pausing K live s.cluster p.1.cluster
    pub same_throttle : p.1.throttle ≡ s.throttle
    pub same_thrashing : p.1.thrashing ≡ s.thrashing

  pause_answer-Pauses :
      (live : Option (Kube.Obj K)) (s t : State K) (r : Result (Unit {0}))
      → Pausing K live s.cluster t.cluster
      → t.throttle ≡ s.throttle
      → t.thrashing ≡ s.thrashing
      → Pauses live s (pause_answer K ctx desired r t)
  unfolding pause_answer
  pause_answer-Pauses live s t (ok u) h e f = record {
    goes = refl;
    pausing = h;
    same_throttle = e;
    same_thrashing = f;
  }
  pause_answer-Pauses live s t (err x) h e f = record {
    goes = refl;
    pausing = h;
    same_throttle = e;
    same_thrashing = f;
  }

  update_pause-Pauses :
      (live : Kube.Obj K) (s : State K) (r : Result (Kube.Obj K))
      → K.get (K.id_of live) s.cluster ≡ r
      → Pauses (some live) s ((update_pause K ctx r >>= pause_answer K ctx desired) s)
  unfolding update_pause ◌>>=◌
  update_pause-Pauses live s (ok fresh) e =
      pause_answer-Pauses (some live) s _ _ (annotated live fresh refl e) refl refl
  update_pause-Pauses live s (err x) e =
      pause_answer-Pauses (some live) s s _ (unread live x refl e) refl refl

  pub pause_live-Pauses :
      (live : Option (Kube.Obj K)) (s : State K) → Pauses live s (pause_live K ctx desired live s)
  unfolding pause_live set_pause_annotation ◌>>=◌
  pause_live-Pauses none s = record {
    goes = refl;
    pausing = no_object refl;
    same_throttle = refl;
    same_thrashing = refl;
  }
  pause_live-Pauses (some live) s = update_pause-Pauses live s (K.get (K.id_of live) s.cluster) refl
