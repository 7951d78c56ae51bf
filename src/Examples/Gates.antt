-- ===== src/Examples/Gates.antt =====
-- The semaphore and the burst strategy at concrete sequences of turns.
use endpoints.Base.{
  ℕ, ◌+◌, Option, ◌++◌, map, length, false, ◌≡◌, refl, none, some, List, [], ◌∷◌, arith,
}
use endpoints.Base.Dict.{lookup, insert, erase}
use endpoints.LoadGen.State.{on_inflight_drained, Session, new_issuer, new_session, publish}
use endpoints.LoadGen.Prompt.{choose_prompt}
use endpoints.LoadGen.Responses.{handle_query_result, route_result, handle_result, publish_all}
use endpoints.LoadGen.Issuer.{
  mark_inflight_complete, overridden, issue, send_data, send_choice, send, must_stop,
}
use endpoints.LoadGen.Concurrency.{
  Concurrency, new_concurrency, Turn, next, got, next_issue, take_turn, take_turns,
}
use endpoints.LoadGen.Concurrency.Permits.Turns.{IsGated, AreAnswers, take_turns-IsGated}
use endpoints.LoadGen.SampleOrder.{Sequential, next_sequential}
use endpoints.LoadGen.Guard.{issued_of}
use endpoints.LoadGen.Burst.{Burst, pending, is_pending, burst_turn, burst_turns, issue_next}
use endpoints.LoadGen.Burst.Sent.{samples_of}
use endpoints.LoadGen.Burst.Order.{drawn}
use endpoints.LoadGen.Burst.Runs.{burst_turns-in_order, burst_turns-ends}
use endpoints.Examples.Inputs.{prompt_sample, call, failed_result, two_samples}

abbrev open_session : Session
open_session = record (new_session none) { issuer = some (new_issuer []); check = two_samples }

abbrev one_at_a_time : Concurrency
one_at_a_time = record { session = open_session; permits = 1; finished = false }

one_accepted : new_concurrency 1 open_session ≡ some one_at_a_time
unfolding new_concurrency
one_accepted = refl

-- the second round finds no permit, and the result of the first gives it back
abbrev turns : List Turn
turns = next (call "a") ∷ next (call "b") ∷ got failed_result 7 ∷ next (call "b") ∷ []

turns_answered : AreAnswers prompt_sample turns one_at_a_time
unfolding take_turn next_issue issue must_stop send_data choose_prompt send_choice send publish
    lookup
turns_answered = (tt, (tt, (omega arith, (tt, tt))))

take_turns-IsGated_example : IsGated 1 (take_turns prompt_sample turns one_at_a_time)
take_turns-IsGated_example =
    take_turns-IsGated 1 prompt_sample turns open_session one_at_a_time one_accepted refl
      turns_answered

abbrev in_sequence : Sequential → Option ℕ × Sequential
in_sequence s = let (i, t) = next_sequential s in (some i, t)

abbrev burst : Burst Sequential
burst = record {
  session = open_session;
  order = record { n_samples = 3; curr_idx = 0 };
  progress = pending;
}

-- the limit of two samples ends the strategy at its third callback
abbrev burst_calls : List Turn
burst_calls = next (call "a") ∷ got failed_result 7 ∷ next (call "b") ∷ next (call "c") ∷ []

burst_turns-in_order_example :
    let e = burst_turns in_sequence prompt_sample burst_calls burst in
    (i : ℕ) × (samples_of e.session.sent
      ≡ [] ++ map prompt_sample (drawn in_sequence i burst.order))
    × (issued_of e.session.issuer ≡ 0 + length (drawn in_sequence i burst.order))
burst_turns-in_order_example =
    burst_turns-in_order in_sequence prompt_sample burst_calls burst refl refl (λ c. omega arith)

burst_turns-ends_example :
    is_pending (burst_turns in_sequence prompt_sample burst_calls burst).progress ≡ false
burst_turns-ends_example =
    burst_turns-ends in_sequence prompt_sample burst_calls burst refl refl (omega arith)
      (omega arith)

-- two samples are sent, of the indices 0 and 1
burst_sends :
    samples_of (burst_turns in_sequence prompt_sample burst_calls burst).session.sent
    ≡ prompt_sample 0 ∷ prompt_sample 1 ∷ []
unfolding burst_turns burst_turn issue_next issue must_stop send_data choose_prompt send_choice send
    publish lookup next_sequential handle_query_result route_result handle_result publish_all erase
    mark_inflight_complete insert overridden on_inflight_drained
burst_sends = refl
