-- ===== src/Examples/Sessions.antt =====
-- A session's run, and its events in the aggregator.
use mathlib.Core.List.{append-nil}
use endpoints.Base.{true, false, ◌≡◌, refl, some, List, [], ◌∷◌, ◌++◌, arith}
use endpoints.Base.Dict.{lookup}
use endpoints.Core.Record.{EventRecord, performance}
use endpoints.Core.Record.Markers.{running, over, stage_after}
use endpoints.LoadGen.State.{Session, new_session, new_issuer}
use endpoints.LoadGen.Responses.{handle_result}
use endpoints.LoadGen.Run.{run, run_steps, begin_phase}
use endpoints.LoadGen.Run.Ending.Phases.{run-ends}
use endpoints.LoadGen.Guard.{IsSafe}
use endpoints.LoadGen.Guard.Steps.{phase_steps-IsSafe}
use endpoints.Metrics.Aggregator.Process.{process_records}
use endpoints.Metrics.Aggregator.Finish.{IsOpen, IsOver}
use endpoints.Metrics.Aggregator.Failures.{counts}
use endpoints.Pipeline.{run-one_snapshot, process_batches, result-counted_once}
use endpoints.Examples.Inputs.{
  encode_calls, new_aggregator, busy_aggregator, no_reply, prompt_sample, failed_result, script,
  steps,
}

abbrev guarded_session : Session
guarded_session = new_session (some 100)

abbrev finished : Session
finished = run prompt_sample 1 40 (script ∷ []) guarded_session

run-ends_example : stage_after (running false) finished.published ≡ over finished.stop_requested
run-ends_example = run-ends prompt_sample 1 40 (script ∷ []) (some 100)

new_session-IsSafe : IsSafe guarded_session
new_session-IsSafe = record {
  capped = λ counts. omega arith;
  bounded = omega arith;
  armed = λ going. refl;
  stamped = λ on. refl;
}

phase_steps-IsSafe_example :
    IsSafe (run_steps prompt_sample steps (begin_phase script guarded_session))
phase_steps-IsSafe_example =
    phase_steps-IsSafe prompt_sample script steps guarded_session new_session-IsSafe

aggregator-IsOpen : IsOpen false new_aggregator
aggregator-IsOpen = record {
  running_still = refl;
  seen = refl;
  not_finalized = refl;
  unwritten = refl;
}

run-one_snapshot_example :
    IsOver finished.stop_requested (
      process_batches encode_calls true true no_reply ([] ∷ finished.published ∷ []) new_aggregator)
run-one_snapshot_example =
    run-one_snapshot encode_calls true true no_reply prompt_sample 1 40 (script ∷ []) (some 100)
      ([] ∷ finished.published ∷ []) new_aggregator (append-nil finished.published)
      aggregator-IsOpen

abbrev in_performance : Session
in_performance = record guarded_session { phase_type = some performance }

result-counted_once_example :
    (es : List EventRecord) × ((handle_result failed_result 7
        (new_issuer [])
        in_performance).published
      ≡ [] ++ es)
    × (counts (process_records encode_calls true true es busy_aggregator).counters ≡ (1, 1))
unfolding lookup
result-counted_once_example =
    result-counted_once encode_calls true true failed_result 7 (new_issuer []) in_performance
      busy_aggregator refl refl (refl, refl, refl)
