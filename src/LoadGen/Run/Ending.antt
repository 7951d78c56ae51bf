-- ===== src/LoadGen/Run/Ending.antt =====
-- load_generator/session.py: the parts of a phase keep the stream without a marker.
pub mod Phases
use endpoints.Base.{
  ℕ, if_true, if_false, true, false, not, ◌&&◌, ◌||◌, ◌≡◌, refl, sym, ◌∙◌, ap, Option, none, some,
  List, [], ◌∷◌, ◌++◌, ◌==◌, if◌then◌else◌, is_some, Bool-cases, inl, inr,
}
use endpoints.Base.Dict.{Dict}
use endpoints.Core.Output.{Json}
use endpoints.Core.Record.{
  Payload, SessionEventType, of_session, started, ended, interrupted, phase_start,
  start_performance_tracking, stop_performance_tracking, nothing,
}
use endpoints.Core.Record.Markers.{running, over, stage_after, stage_after-append, IsOrdinary}
use endpoints.LoadGen.State.{
  PhaseIssuer, Session, new_session, publish, publish_session_event, session_event, set_issuer,
  stop,
}
use endpoints.LoadGen.Issuer.{stop_tracking_once}
use endpoints.LoadGen.Responses.{transport_closed, receiver_raised, inflight_of, is_warmup}
use endpoints.LoadGen.Markers.{
  IsPlain, same, one_more, issue-plain, skip-plain, timer-published, stop_phase-published,
}
use endpoints.LoadGen.Markers.Published.{response-plain}
use endpoints.LoadGen.Run.{
  Step, issue_sample, skip_sample, respond, close_transport, fail_receiver, stop_session,
  stop_phase, run_timer, PhaseScript, run_step, run_steps, await_drained, drain_inflight,
  begin_phase, end_phase, run_phase, run_phases, conclude, run, add_result, is_performance,
  at_issuer, reset_liveness, install, announce, start_tracking, stop_tracking, mark_interrupted,
}

pub at_issuer-plain :
    (f : PhaseIssuer → Session → Session) (o : Option PhaseIssuer) (s : Session)
    → ((p : PhaseIssuer) → IsPlain (f p s).published)
    → IsPlain s.published
    → IsPlain (at_issuer f o s).published
at_issuer-plain f none s g h = h
at_issuer-plain f (some p) s g h = g p

pub session_event-plain :
    (e : SessionEventType) (ts : ℕ) (d : Payload) (s : Session)
    → IsOrdinary (of_session e)
    → IsPlain s.published
    → IsPlain (publish_session_event e ts d s).published
unfolding publish_session_event publish
session_event-plain e ts d s o h = one_more (session_event e ts d) s.published refl o h

pub stop_tracking-plain :
    (ts : ℕ) (p : PhaseIssuer) (s : Session)
    → IsPlain s.published
    → IsPlain (stop_tracking_once ts p s).published
unfolding stop_tracking_once
stop_tracking-plain ts p s h = elim (Bool-cases p.tracking_stopped) [
  | inl before ↦ simp before h
  | inr first ↦ simp first (
      session_event-plain stop_performance_tracking ts nothing
        (set_issuer (record p { tracking_stopped = true }) s)
        (record { not_ended = refl; not_interrupted = refl }) h)
]

pub add_result-plain :
    (x : PhaseScript) (p : PhaseIssuer) (s : Session)
    → IsPlain s.published
    → IsPlain (add_result x p s).published
unfolding add_result
add_result-plain x p s h = elim (Bool-cases (is_warmup (some x.phase_type))) [
  | inl warm ↦ simp warm h
  | inr other ↦ simp other h
]

pub reset-plain : (s : Session) → IsPlain s.published → IsPlain (reset_liveness s).published
unfolding reset_liveness
reset-plain s h = elim (Bool-cases (is_some s.idle_timeout_ns)) [
  | inl guarded ↦ same (ap Session.published (if_true _ _ _ guarded)) h
  | inr free ↦ same (ap Session.published (if_false _ _ _ free)) h
]

pub start_tracking-plain :
    (x : PhaseScript) (s : Session) → IsPlain s.published → IsPlain (start_tracking x s).published
unfolding start_tracking
start_tracking-plain x s h = elim (Bool-cases (is_performance x.phase_type)) [
  | inl tracked ↦ rw tracked (
      session_event-plain start_performance_tracking x.start_ts nothing s
        (record { not_ended = refl; not_interrupted = refl }) h)
  | inr untracked ↦ rw untracked h
]

pub stop_tracking_phase-plain :
    (x : PhaseScript) (s : Session) → IsPlain s.published → IsPlain (stop_tracking x s).published
unfolding stop_tracking
stop_tracking_phase-plain x s h = elim (Bool-cases (is_performance x.phase_type)) [
  | inl tracked ↦
      rw tracked (at_issuer-plain _ s.issuer s (λ p. stop_tracking-plain x.end_ts p s h) h)
  | inr untracked ↦ rw untracked h
]

pub begin-plain :
    (x : PhaseScript) (s : Session) → IsPlain s.published → IsPlain (begin_phase x s).published
unfolding begin_phase announce install
begin-plain x s h = start_tracking-plain x (announce x (install x (reset_liveness s))) (
    session_event-plain phase_start x.start_ts _ (install x (reset_liveness s))
      (record { not_ended = refl; not_interrupted = refl }) (reset-plain s h))

-- What `conclude` adds is ENDED, after INTERRUPTED where the session was stopped.
pub conclude_lem :
    (ts : ℕ) (s : Session)
    → IsPlain s.published
    → stage_after (running false) (conclude ts s).published ≡ over s.stop_requested
unfolding conclude mark_interrupted publish_session_event publish
conclude_lem ts s h = elim (Bool-cases s.stop_requested) [
  | inl stopped ↦
      ap
        (λ (t : Session).
          stage_after (running false) (t.published ++ session_event ended ts nothing ∷ []))
        (if_true s.stop_requested _ _ stopped)
      ∙ stage_after-append (running false)
          (s.published ++ session_event interrupted ts nothing ∷ []) _
      ∙ ap (λ st. stage_after st (session_event ended ts nothing ∷ []))
          (stage_after-append (running false) s.published
              (session_event interrupted ts nothing ∷ [])
            ∙ ap (λ st. stage_after st (session_event interrupted ts nothing ∷ [])) h)
      ∙ ap over (sym stopped)
  | inr normal ↦
      ap
        (λ (t : Session).
          stage_after (running false) (t.published ++ session_event ended ts nothing ∷ []))
        (if_false s.stop_requested _ _ normal)
      ∙ stage_after-append (running false) s.published (session_event ended ts nothing ∷ [])
      ∙ ap (λ st. stage_after st (session_event ended ts nothing ∷ [])) h
      ∙ ap over (sym normal)
]

pub stop-conclude : (ts : ℕ) (s : Session) → (conclude ts s).stop_requested ≡ s.stop_requested
unfolding conclude mark_interrupted publish_session_event publish
stop-conclude ts s = elim (Bool-cases s.stop_requested) [
  | inl stopped ↦ ap Session.stop_requested (if_true s.stop_requested _ _ stopped)
  | inr normal ↦ ap Session.stop_requested (if_false s.stop_requested _ _ normal)
]
