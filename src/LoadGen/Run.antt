-- ===== src/LoadGen/Run.antt =====
-- load_generator/session.py: `run` and `_run_phase`. What happens while a phase awaits its strategy or
-- its drain is a script: the steps that the event loop takes there, in their order.
pub mod Ending
use endpoints.Base.{
  ℕ, Bool, true, false, not, ◌&&◌, ◌||◌, Option, none, some, List, [], ◌∷◌, ◌++◌, String, ◌==◌,
  if◌then◌else◌, is_some,
}
use endpoints.Base.Dict.{Dict}
use endpoints.Core.Output.{Json}
use endpoints.Core.Record.{
  started, ended, interrupted, phase_start, start_performance_tracking, nothing, phase, PhaseType,
  performance, warmup,
}
use endpoints.LoadGen.State.{
  PhaseIssuer, PhaseResult, new_issuer, StopCheck, FatalError, Session, new_session,
  publish_session_event, disarm, stop, stop_current_phase,
}
use endpoints.LoadGen.Issuer.{Call, issue, register_skipped, stop_tracking_once}
use endpoints.LoadGen.Responses.{
  Response, inflight_of, is_warmup, handle_response, transport_closed, receiver_raised, fire_timer,
}

-- One step of the event loop: a call of the strategy, a response or a failure that the receiver sees,
-- the timer, or a call from outside.
pub data Step : Type 0 where
  issue_sample skip_sample : Call → Step
  respond : Response → ℕ → Step
  close_transport fail_receiver stop_session stop_phase : Step
  run_timer : ℕ → Step

abbrev pub at_issuer : (PhaseIssuer → Session → Session) → Option PhaseIssuer → Session → Session
at_issuer f none s = s
at_issuer f (some p) s = f p s

abbrev pub with_issuer : (PhaseIssuer → Session → Session) → Session → Session
with_issuer f s = at_issuer f s.issuer s

pub record PhaseScript : Type 0 where
  pub phase_type : PhaseType
  pub drain_after : Bool
  pub has_drain_timeout : Bool
  pub num_turns : ℕ
  pub num_trajectories : ℕ
  pub check : StopCheck
  pub routing_headers : List String
  pub start_ts : ℕ
  pub end_ts : ℕ
  -- the steps until the strategy's task is done, and those of the drain
  pub during : List Step
  pub draining : List Step

abbrev pub is_performance : PhaseType → Bool
is_performance performance = true
is_performance _ = false

-- the result that `_run_phase` returns, which `run` keeps; a warmup has none
unfoldable pub add_result : PhaseScript → PhaseIssuer → Session → Session
add_result x p s = if is_warmup (some x.phase_type) then s else record s {
  phase_results =
      s.phase_results
      ++ record {
        phase_type = x.phase_type;
        uuid_to_index = p.uuid_to_index;
        issued_count = p.issued_count;
        start_time_ns = x.start_ts;
        end_time_ns = x.end_ts;
      }
        ∷ [];
}

-- The parts of `_run_phase` -----------------------------------------------------------------------

-- the cap of a phase before is cleared, and so is its liveness state
unfoldable pub reset_liveness : Session → Session
reset_liveness s =
    if is_some s.idle_timeout_ns
    then record s { phase_stopped = false; last_progress_ns = none; timer = none }
    else record s { phase_stopped = false }

unfoldable pub install : PhaseScript → Session → Session
install x s = record s {
  issuer = some (new_issuer x.routing_headers);
  phase_type = some x.phase_type;
  check = x.check;
}

unfoldable pub announce : PhaseScript → Session → Session
announce x s =
    publish_session_event phase_start x.start_ts
      (phase (record {
        phase_type = x.phase_type;
        drain_after = x.drain_after;
        num_turns = x.num_turns;
        num_trajectories = x.num_trajectories;
      }))
      s

unfoldable pub start_tracking : PhaseScript → Session → Session
start_tracking x s =
    if is_performance x.phase_type
    then publish_session_event start_performance_tracking x.start_ts nothing s
    else s

unfoldable pub stop_tracking : PhaseScript → Session → Session
stop_tracking x s =
    if is_performance x.phase_type then with_issuer (stop_tracking_once x.end_ts) s else s

-- up to the strategy's task
unfoldable pub begin_phase : PhaseScript → Session → Session
begin_phase x s = record (start_tracking x (announce x (install x (reset_liveness s)))) {
  strategy_running = true;
}

-- the `finally` of `run`
unfoldable pub mark_interrupted : ℕ → Session → Session
mark_interrupted ts s =
    if s.stop_requested then publish_session_event interrupted ts nothing s else s

unfoldable pub conclude : ℕ → Session → Session
conclude ts s =
    publish_session_event ended ts nothing (mark_interrupted ts (disarm (record s { done = true })))

module _ (load_sample : ℕ → Option (Dict Json)) where
  unfoldable pub run_step : Step → Session → Session
  run_step (issue_sample c) s = with_issuer (λ p t. (issue load_sample c p t).1) s
  run_step (skip_sample c) s = with_issuer (λ p t. (register_skipped c p t).1) s
  run_step (respond r now) s = handle_response r now s
  run_step close_transport s = transport_closed s
  run_step fail_receiver s = receiver_raised s
  run_step stop_session s = stop s
  run_step stop_phase s = stop_current_phase s
  run_step (run_timer now) s = if is_some s.timer then fire_timer now s else s

  unfoldable pub run_steps : List Step → Session → Session
  run_steps [] s = s
  run_steps (x ∷ xs) s = run_steps xs (run_step x s)

  -- `await self._drain_event.wait()`: the steps up to the one that sets the event
  unfoldable pub await_drained : List Step → Session → Session
  await_drained [] s = s
  await_drained (x ∷ xs) s = if s.drain_event then s else await_drained xs (run_step x s)

  -- `_drain_inflight`. Steps that end before the event is set end in the timeout, where there is one.
  unfoldable pub drain_inflight : PhaseScript → Session → Session
  drain_inflight x s =
      if inflight_of s.issuer == 0 || s.stop_requested
      then s
      else let t = await_drained x.draining (record s { drain_event = false }) in
        if not t.drain_event && x.has_drain_timeout then stop t else t

  -- `_run_phase` from the end of the strategy's task
  unfoldable pub end_phase : PhaseScript → Session → Session
  end_phase x s =
      let s1 = record s { strategy_running = false } in
      with_issuer (add_result x)
        (stop_tracking x (if x.drain_after then drain_inflight x s1 else s1))

  -- `_run_phase`; a strategy that raises is not modelled
  unfoldable pub run_phase : PhaseScript → Session → Session
  run_phase x s = end_phase x (run_steps x.during (begin_phase x s))

  -- the loop of `run`: a fatal error or a stop ends it
  unfoldable pub run_phases : List PhaseScript → Session → Session
  run_phases [] s = s
  run_phases (x ∷ xs) s =
      if is_some s.fatal_error || s.stop_requested then s else run_phases xs (run_phase x s)

  -- `run`: it raises the `fatal_error` of the session where there is one
  unfoldable pub run : ℕ → ℕ → List PhaseScript → Session → Session
  run start_ts end_ts xs s =
      conclude end_ts (run_phases xs (publish_session_event started start_ts nothing s))
