-- ===== src/LoadGen/Run/Ending/Phases.antt =====
-- load_generator/session.py: how a run ends, for the reader of its events.
use endpoints.Base.{
  ℕ, if_true, if_false, false, not, ◌&&◌, ◌||◌, ◌≡◌, refl, sym, ◌∙◌, ap, Option, List, [], ◌∷◌,
  ◌==◌, if◌then◌else◌, is_some, Bool-cases, inl, inr,
}
use endpoints.Base.Dict.{Dict}
use endpoints.Core.Output.{Json}
use endpoints.Core.Record.{started, nothing}
use endpoints.Core.Record.Markers.{running, over, stage_after}
use endpoints.LoadGen.State.{Session, new_session, publish_session_event, stop}
use endpoints.LoadGen.Responses.{transport_closed, receiver_raised, inflight_of}
use endpoints.LoadGen.Markers.{
  IsPlain, same, issue-plain, skip-plain, timer-published, stop_phase-published,
}
use endpoints.LoadGen.Markers.Published.{response-plain}
use endpoints.LoadGen.Run.{
  Step, issue_sample, skip_sample, respond, close_transport, fail_receiver, stop_session,
  stop_phase, run_timer, PhaseScript, run_step, run_steps, await_drained, drain_inflight,
  begin_phase, end_phase, run_phase, run_phases, run, add_result, stop_tracking,
}
use endpoints.LoadGen.Run.Ending.{
  at_issuer-plain, session_event-plain, add_result-plain, stop_tracking_phase-plain, begin-plain,
  conclude_lem, stop-conclude,
}

module _ (load_sample : ℕ → Option (Dict Json)) where
  step-plain :
      (x : Step) (s : Session) → IsPlain s.published → IsPlain (run_step load_sample x s).published
  unfolding run_step receiver_raised stop transport_closed
  step-plain (issue_sample c) s h =
      at_issuer-plain _ s.issuer s (λ p. issue-plain load_sample c p s h) h
  step-plain (skip_sample c) s h = at_issuer-plain _ s.issuer s (λ p. skip-plain c p s h) h
  step-plain (respond r now) s h = response-plain r now s h
  step-plain close_transport s h = h
  step-plain fail_receiver s h = h
  step-plain stop_session s h = h
  step-plain stop_phase s h = same (stop_phase-published s) h
  step-plain (run_timer now) s h = elim (Bool-cases (is_some s.timer)) [
    | inl armed ↦ same (ap Session.published (if_true _ _ _ armed) ∙ timer-published now s) h
    | inr absent ↦ same (ap Session.published (if_false _ _ _ absent)) h
  ]

  steps-plain :
      (xs : List Step) (s : Session)
      → IsPlain s.published
      → IsPlain (run_steps load_sample xs s).published
  unfolding run_steps
  steps-plain [] s h = h
  steps-plain (x ∷ xs) s h = steps-plain xs (run_step load_sample x s) (step-plain x s h)

  await-plain :
      (xs : List Step) (s : Session)
      → IsPlain s.published
      → IsPlain (await_drained load_sample xs s).published
  unfolding await_drained
  await-plain [] s h = h
  await-plain (x ∷ xs) s h = elim (Bool-cases s.drain_event) [
    | inl drained ↦ same (ap Session.published (if_true _ _ _ drained)) h
    | inr waiting ↦
        same (ap Session.published (if_false _ _ _ waiting))
          (await-plain xs (run_step load_sample x s) (step-plain x s h))
  ]

  drain-plain :
      (x : PhaseScript) (s : Session)
      → IsPlain s.published
      → IsPlain (drain_inflight load_sample x s).published
  unfolding drain_inflight stop
  drain-plain x s h = elim (Bool-cases (inflight_of s.issuer == 0 || s.stop_requested)) [
    | inl nothing_left ↦ same (ap Session.published (if_true _ _ _ nothing_left)) h
    | inr waiting ↦
        let t = await_drained load_sample x.draining (record s { drain_event = false }) in
        let k = await-plain x.draining (record s { drain_event = false }) h in
        same (ap Session.published (if_false _ _ _ waiting))
          (elim (Bool-cases (not t.drain_event && x.has_drain_timeout)) [
            | inl late ↦ same (ap Session.published (if_true _ _ _ late)) k
            | inr drained ↦ same (ap Session.published (if_false _ _ _ drained)) k
          ])
  ]

  drained-plain :
      (x : PhaseScript) (s : Session)
      → IsPlain s.published
      → IsPlain (if x.drain_after then drain_inflight load_sample x s else s).published
  drained-plain x s h = elim (Bool-cases x.drain_after) [
    | inl drains ↦ same (ap Session.published (if_true _ _ _ drains)) (drain-plain x s h)
    | inr leaves ↦ same (ap Session.published (if_false _ _ _ leaves)) h
  ]

  run_phase-plain :
      (x : PhaseScript) (s : Session)
      → IsPlain s.published
      → IsPlain (run_phase load_sample x s).published
  unfolding run_phase end_phase
  run_phase-plain x s h =
      let t = record (run_steps load_sample x.during (begin_phase x s)) {
        strategy_running = false;
      } in
      let drained = if x.drain_after then drain_inflight load_sample x t else t in
      let k =
        stop_tracking_phase-plain x drained
          (drained-plain x t (steps-plain x.during (begin_phase x s) (begin-plain x s h))) in
      at_issuer-plain (add_result x) (stop_tracking x drained).issuer (stop_tracking x drained)
        (λ p. add_result-plain x p (stop_tracking x drained) k) k

  run_phases-plain :
      (xs : List PhaseScript) (s : Session)
      → IsPlain s.published
      → IsPlain (run_phases load_sample xs s).published
  unfolding run_phases
  run_phases-plain [] s h = h
  run_phases-plain (x ∷ xs) s h = elim (Bool-cases (is_some s.fatal_error || s.stop_requested)) [
    | inl finished ↦ same (ap Session.published (if_true _ _ _ finished)) h
    | inr going ↦
        same (ap Session.published (if_false _ _ _ going))
          (run_phases-plain xs (run_phase load_sample x s) (run_phase-plain x s h))
  ]

  -- Whatever phases a session runs and whatever steps its event loop takes in them, the stream that it publishes has ENDED, and INTERRUPTED stands before it exactly when a stop was requested (by a signal, a closed transport, a failed receiver, the liveness guard or a drain that timed out).
  pub run-ends :
      (start_ts end_ts : ℕ) (xs : List PhaseScript) (timeout : Option ℕ)
      → let s = run load_sample start_ts end_ts xs (new_session timeout) in
        stage_after (running false) s.published ≡ over s.stop_requested
  unfolding run
  run-ends start_ts end_ts xs timeout =
      let s =
        run_phases load_sample xs
          (publish_session_event started start_ts nothing (new_session timeout)) in
      conclude_lem end_ts s (
        run_phases-plain xs _ (
          session_event-plain started start_ts nothing (new_session timeout)
            (record { not_ended = refl; not_interrupted = refl }) refl))
      ∙ ap over (sym (stop-conclude end_ts s))
