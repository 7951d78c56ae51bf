-- ===== src/Examples/Agents.antt =====
-- The agentic strategy on a session, at two conversations of which one has a delayed turn.
use Prim.Native.String.{◌++◌ as str_append, count}
use text.Mathlib.TextLemmas.{length-append}
use endpoints.Base.{
  ℕ, zero, suc, ◌+◌, ◌≤◌, true, false, ◌≡◌, refl, sym, ap, ◌∙◌, ◌⊎◌, Option, none, some, List, [],
  ◌∷◌, String, str_eq, length, arith,
}
use endpoints.Base.Dict.{lookup, insert, erase}
use endpoints.LoadGen.State.{Session, new_session, new_issuer, publish, on_inflight_drained}
use endpoints.LoadGen.Prompt.{choose_prompt}
use endpoints.LoadGen.Issuer.{
  issue, must_stop, send_data, send_choice, send, register_skipped, stop_tracking_once,
  mark_inflight_complete, overridden,
}
use endpoints.LoadGen.Responses.{publish_all}
use endpoints.LoadGen.Conversation.{mark_turn, get_or_create}
use endpoints.LoadGen.SampleOrder.{next_sequential, advance}
use endpoints.LoadGen.Trajectories.{Plan, Instance, logical_id, digits}
use endpoints.LoadGen.Agentic.{
  Issuer, request_stop_issuing, stop_tracking, issue_turn_now, finish_conversation, issue_next_turn,
  start_conversation,
}
use endpoints.LoadGen.Agentic.Events.{
  Event, response, timeout, delay_ends, begin, take_events, initial_conversations_to_start,
  take_event, on_sample_complete, handle_timeout, end_delay, fill_on, fill_slot, start_all,
  abort_remaining_turns, skip_turns,
}
use endpoints.LoadGen.Agentic.Load.{load}
use endpoints.LoadGen.Agentic.Concurrency.{take_events-load}
use endpoints.LoadGen.Agentic.Opened.{AreDistinct}
use endpoints.LoadGen.Agentic.Progress.{is_due, are_due}
use endpoints.LoadGen.Agentic.Ends.{most_events, IsEnding, take_events-ends}
use endpoints.LoadGen.Agentic.Live.{take_events-waits}
use endpoints.LoadGen.Agentic.OnSession.{
  Stamp, Desk, session_issuer, time_out_query, publish_synthetic_failure,
}
use endpoints.LoadGen.Agentic.Identifiers.{session-GivesFresh}
use endpoints.Examples.Inputs.{prompt_sample}

-- Identifiers `q`, `qq`, and so on.
abbrev name_of : ℕ → String
name_of zero = "q"
name_of (suc n) = str_append "q" (name_of n)

name_of-count : (n : ℕ) → count (name_of n) ≡ n + 1
name_of-count zero = refl
name_of-count (suc n) =
    let e : count (str_append "q" (name_of n)) ≡ 1 + count (name_of n) =
      length-append "q" (name_of n) in
    omega (arith, e, name_of-count n)

name_of-injective : (i j : ℕ) → name_of i ≡ name_of j → i ≡ j
name_of-injective i j e =
    let same = ap count e in omega (arith, same, name_of-count i, name_of-count j)

abbrev stamps : ℕ → Stamp
stamps n = record { query_id = name_of n; now = n; ts = n; started_ts = n }

abbrev plan : Plan
plan = record {
  base_convs = ("a", (0, 1) ∷ (1, 2) ∷ []) ∷ ("b", (2, 1) ∷ []) ∷ [];
  order = λ k. some (next_sequential (advance k (record { n_samples = 2; curr_idx = 0 }))).0;
  num_trajectories_to_issue = none;
  target_concurrency = some 1;
  stop_issuing_on_first_user_complete = false;
  turn_timeout_s = "30";
  delayed = λ source turn. str_eq source "b";
  data_override = λ source turn repeat. some none;
}

abbrev issuer : Issuer Desk
issuer = session_issuer prompt_sample stamps

abbrev unlimited_session : Session
unlimited_session = record (new_session none) {
  issuer = some (new_issuer []);
  check = record {
    phase_start_ns = 0;
    max_duration_ns = 0;
    total_samples = 0;
    counts_samples = false;
  };
}

abbrev desk : Desk
desk = record { session = unlimited_session; used = 0 }

abbrev id_of : Option Instance → String
id_of none = ""
id_of (some i) = i.logical_id

abbrev happenings : List Event
happenings = response "q" none ∷ timeout "qq" ∷ delay_ends "b" ∷ response "qqqq" none ∷ []

plan_distinct : AreDistinct plan
unfolding next_sequential advance logical_id digits
plan_distinct zero (suc zero) lt below x y ex ey e =
    let same : "a" ≡ "b" = ap id_of ex ∙ e ∙ sym (ap id_of ey) in
    let k : true ≡ false = ap (λ t. str_eq t "a") same in absurd (cc)
plan_distinct j zero lt below x y ex ey e = absurd (omega arith)
plan_distinct (suc j) (suc zero) lt below x y ex ey e = absurd (omega arith)
plan_distinct j (suc (suc k)) lt below x y ex ey e = absurd (omega arith)

due_happenings : are_due plan issuer happenings (begin plan issuer desk []) ≡ true
unfolding are_due take_event on_sample_complete handle_timeout end_delay issue_turn_now
    finish_conversation issue_next_turn start_conversation fill_on fill_slot start_all begin
    initial_conversations_to_start abort_remaining_turns skip_turns request_stop_issuing
    stop_tracking lookup insert erase session_issuer issue must_stop send_data choose_prompt
    send_choice send publish register_skipped stop_tracking_once time_out_query
    publish_synthetic_failure publish_all mark_inflight_complete on_inflight_drained overridden
    mark_turn get_or_create next_sequential advance logical_id digits take_events
due_happenings = refl

all_over : (take_events plan issuer happenings (begin plan issuer desk [])).all_done ≡ true
unfolding are_due take_event on_sample_complete handle_timeout end_delay issue_turn_now
    finish_conversation issue_next_turn start_conversation fill_on fill_slot start_all begin
    initial_conversations_to_start abort_remaining_turns skip_turns request_stop_issuing
    stop_tracking lookup insert erase session_issuer issue must_stop send_data choose_prompt
    send_choice send publish register_skipped stop_tracking_once time_out_query
    publish_synthetic_failure publish_all mark_inflight_complete on_inflight_drained overridden
    mark_turn get_or_create next_sequential advance logical_id digits take_events
all_over = refl

take_events-load_example :
    let a = take_events plan issuer happenings (begin plan issuer desk []) in
    (load a ≤ 1) × (load a ≤ 2) × (a.started ≤ 2)
take_events-load_example = take_events-load plan issuer 0 happenings desk [] refl

take_events-ends_example :
    (length happenings ≤ most_events plan)
    × (((e : Event)
          → ¬ (is_due e (take_events plan issuer happenings (begin plan issuer desk [])) ≡ true))
        → (take_events plan issuer happenings (begin plan issuer desk [])).all_done ≡ true)
    × IsEnding plan {ops = issuer}
        (session-GivesFresh prompt_sample stamps name_of-injective)
        plan_distinct
        desk
        []
        happenings
take_events-ends_example =
    take_events-ends plan (session-GivesFresh prompt_sample stamps name_of-injective) plan_distinct
      desk [] happenings due_happenings

take_events-waits_example :
    let a = take_events plan issuer happenings (begin plan issuer desk []) in
    (a.all_done ≡ true) ⊎ ((e : Event) × (is_due e a ≡ true))
take_events-waits_example =
    take_events-waits plan (session-GivesFresh prompt_sample stamps name_of-injective) plan_distinct
      happenings desk []
