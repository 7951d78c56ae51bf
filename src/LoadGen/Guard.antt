-- ===== src/LoadGen/Guard.antt =====
-- load_generator/session.py: the counts of the current phase and the liveness guard, after any steps.
pub mod Methods
pub mod Steps
pub mod Deadline
use mathlib.Core.Path.{subst}
use endpoints.Base.{
  ℕ, zero, suc, ◌+◌, ◌-◌, ◌≤◌, Bool, true, false, not, ◌&&◌, ◌||◌, ◌≡◌, refl, sym, ◌∙◌, ap, Option,
  none, some, List, [], ◌∷◌, String, arith, ltb, leb, ◌==◌, if◌then◌else◌, if_true, if_false,
  is_some, Bool-cases, Option-cases, inl, inr,
}
use endpoints.Base.Dict.{Dict, contains, erase}
use endpoints.Core.Output.{Json, PromptData}
use endpoints.Core.Record.{EventRecord}
use endpoints.LoadGen.State.{
  PhaseIssuer, StopCheck, Session, publish, publish_session_event, set_issuer, on_inflight_started,
  on_inflight_drained, arm, stop, stop_current_phase,
}
use endpoints.LoadGen.Prompt.{
  PromptChoice, chosen, unavailable, both_token_fields, choose_prompt, no_prompt,
}
use endpoints.LoadGen.Issuer.{
  Call, issue, register_skipped, send, send_choice, send_data, must_stop, mark_inflight_complete,
  registered,
}
use endpoints.LoadGen.Responses.{
  Response, result, chunk, QueryResult, handle_response, handle_query_result, route_result,
  handle_result, handle_chunk, publish_all, events_of, transport_closed, receiver_raised,
  fire_timer, fire_guarded, expire, inflight_of, started_of, is_warmup, info_of, stamp,
  last_progress,
}
use endpoints.LoadGen.Run.{
  Step, issue_sample, skip_sample, respond, close_transport, fail_receiver, stop_session,
  stop_phase, run_timer, run_step, run_steps, at_issuer, PhaseScript, begin_phase, start_tracking,
  announce, install, reset_liveness, is_performance,
}

abbrev pub issued_of : Option PhaseIssuer → ℕ
issued_of none = 0
issued_of (some p) = p.issued_count

-- The invariant, on the parts of a session that it is about; `stopped` says that the session was stopped
-- or is done.
pub record Safe (c : StopCheck) (stopped : Bool) (timeout timer : Option ℕ) (inflight : ℕ)
    (started : Option ℕ) (issued : ℕ) : Type 0 where
  -- the phase never issues more samples than it is configured for
  pub capped : c.counts_samples ≡ true → issued ≤ c.total_samples
  pub bounded : inflight ≤ issued
  -- the guard is armed exactly while it is configured and requests are in flight
  pub armed : stopped ≡ false → is_some timer ≡ (is_some timeout && ltb 0 inflight)
  pub stamped : is_some timeout ≡ true → is_some started ≡ ltb 0 inflight

abbrev pub SafeAt : Option PhaseIssuer → Session → Type 0
SafeAt o s =
    Safe s.check (s.stop_requested || s.done) s.idle_timeout_ns s.timer (inflight_of o)
      (started_of o) (issued_of o)

abbrev pub IsSafe : Session → Type 0
IsSafe s = SafeAt s.issuer s

pub room :
    (a b counted late : Bool) (issued total : ℕ)
    → (a || b || (counted && leb total issued) || late) ≡ false
    → counted ≡ true
    → issued + 1 ≤ total
room a b counted late issued total e k = ground arith

pub arm-is_some :
    (timeout timer : Option ℕ) (n : ℕ)
    → is_some timer ≡ (is_some timeout && ltb 0 n)
    → is_some (arm timeout timer) ≡ (is_some timeout && ltb 0 (n + 1))
arm-is_some none timer n k = k
arm-is_some (some t) (some d) n k = ground arith
arm-is_some (some t) none n k = ground arith

pub begun :
    (d : StopCheck) (stopped : Bool) (timeout timer : Option ℕ)
    → (stopped ≡ false → is_some timer ≡ false)
    → Safe d stopped timeout timer 0 none 0
begun d stopped timeout timer unarmed = record {
  capped = λ counts. omega arith;
  bounded = omega arith;
  armed = λ going. unarmed going ∙ ground arith;
  stamped = λ on. refl;
}

module _ {c : StopCheck} {stopped : Bool} {timeout timer : Option ℕ} {n : ℕ} {started : Option ℕ}
    {issued : ℕ} where
  pub first_sent :
      Safe c stopped timeout timer n started issued
      → (c.counts_samples ≡ true → issued + 1 ≤ c.total_samples)
      → (n == 0 && is_some timeout) ≡ true
      → (ts : ℕ) → Safe c stopped timeout (arm timeout timer) (n + 1) (some ts) (issued + 1)
  first_sent h more first ts = record {
    capped = more;
    bounded = ground (arith, h.bounded);
    armed = λ going. arm-is_some timeout timer n (h.armed going);
    stamped = λ on. ground arith;
  }

  pub after_first :
      Safe c stopped timeout timer n started issued
      → (c.counts_samples ≡ true → issued + 1 ≤ c.total_samples)
      → (n == 0 && is_some timeout) ≡ false
      → Safe c stopped timeout timer (n + 1) started (issued + 1)
  after_first h more later = record {
    capped = more;
    bounded = ground (arith, h.bounded);
    armed = λ going. h.armed going ∙ ground arith;
    stamped = λ on. h.stamped on ∙ ground arith;
  }

  pub last_done :
      Safe c stopped timeout timer n started issued → Safe c stopped timeout none 0 none issued
  last_done h = record {
    capped = h.capped;
    bounded = omega arith;
    armed = λ going. ground arith;
    stamped = λ on. refl;
  }

  pub one_done :
      Safe c stopped timeout timer n started issued
      → (n == 0) ≡ false
      → (n == 1) ≡ false
      → Safe c stopped timeout timer (n - 1) started issued
  one_done h busy more = record {
    capped = h.capped;
    bounded = ground (arith, h.bounded);
    armed = λ going. h.armed going ∙ ground arith;
    stamped = λ on. h.stamped on ∙ ground arith;
  }

  -- a stop keeps the counts, and asks nothing of the timer
  pub stopped_now :
      (t : Option ℕ)
      → Safe c stopped timeout timer n started issued
      → Safe c true timeout t n started issued
  stopped_now t h = record {
    capped = h.capped;
    bounded = h.bounded;
    armed = λ going. absurd (cc);
    stamped = h.stamped;
  }

  -- a timer that is armed again, while requests are in flight
  pub armed_again :
      (t d : ℕ)
      → Safe c stopped timeout timer n started issued
      → timeout ≡ some t
      → ltb 0 n ≡ true
      → Safe c stopped timeout (some d) n started issued
  armed_again t d h on busy = record {
    capped = h.capped;
    bounded = h.bounded;
    armed = λ going. rw (on, busy) refl;
    stamped = h.stamped;
  }

  -- a timer that is dropped, while none is due
  pub disarmed :
      Safe c stopped timeout timer n started issued
      → (stopped ≡ false → (is_some timeout && ltb 0 n) ≡ false)
      → Safe c stopped timeout none n started issued
  disarmed h none_due = record {
    capped = h.capped;
    bounded = h.bounded;
    armed = λ going. sym (none_due going);
    stamped = h.stamped;
  }

  pub one_skipped :
      Safe c stopped timeout timer n started issued
      → (c.counts_samples ≡ true → issued + 1 ≤ c.total_samples)
      → Safe c stopped timeout timer n started (issued + 1)
  one_skipped h more = record {
    capped = more;
    bounded = ground (arith, h.bounded);
    armed = h.armed;
    stamped = h.stamped;
  }
