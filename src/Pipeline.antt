-- ===== src/Pipeline.antt =====
-- The session's events in the aggregator: what load_generator/session.py publishes, as
-- metrics_aggregator/aggregator.py processes it. The publisher keeps the order of the events and
-- splits them into batches.
use endpoints.Base.{
  ℕ, ◌+◌, Bool, false, ◌≡◌, refl, sym, ◌∙◌, ap, Option, none, some, List, [], ◌∷◌, ◌++◌, String,
  if◌then◌else◌, is_some,
}
use mathlib.Core.Path.{subst}
use endpoints.Base.Dict.{Dict, contains}
use endpoints.Core.Output.{Json, ToolCall, ErrorData}
use endpoints.Core.Record.{EventRecord, generic}
use endpoints.Core.Record.Markers.{Stage, running, over, stage_after, stage_after-append}
use endpoints.Metrics.Queue.{TokenizationInput, Reply}
use endpoints.Metrics.Aggregator.{Aggregator}
use endpoints.Metrics.Aggregator.Process.{process, process_records, process_record}
use endpoints.Metrics.Aggregator.Finish.{IsAt, IsOpen, IsOver}
use endpoints.Metrics.Aggregator.Finish.Published.{process-IsAt}
use endpoints.Metrics.Aggregator.Failures.{IsTracked, view, counts, error_counts, complete_counts}
use endpoints.LoadGen.State.{ConvInfo, PhaseIssuer, Session, new_session}
use endpoints.LoadGen.Responses.{
  QueryResult, handle_result, events_of, complete_record, error_record, info_of, is_warmup,
}
use endpoints.LoadGen.Markers.Published.{result-published}
use endpoints.LoadGen.Run.{PhaseScript, run}
use endpoints.LoadGen.Run.Ending.Phases.{run-ends}

abbrev concat : List (List EventRecord) → List EventRecord
concat [] = []
concat (b ∷ bs) = b ++ concat bs

module _ (encode : List ToolCall → String) (streaming enable_isl : Bool) where
  processed :
      (i : ConvInfo) (now : ℕ) (r : QueryResult) (a : Aggregator)
      → IsTracked r.id (view a)
      → counts (process_records encode streaming enable_isl (events_of i now r false) a).counters
        ≡ (
          (if is_some r.error then a.counters.tracked_failed + 1 else a.counters.tracked_failed),
          a.counters.tracked_completed + 1,
        )
  unfolding process_records
  processed i now r a k = go r.error
    where
      done : EventRecord
      done = complete_record i now r

      go :
          (e : Option ErrorData)
          → counts
              (process_records encode streaming enable_isl
                (events_of i now (record r { error = e }) false)
                a).counters
            ≡ (
              (if is_some e then a.counters.tracked_failed + 1 else a.counters.tracked_failed),
              a.counters.tracked_completed + 1,
            )
      go none = complete_counts encode streaming enable_isl done a refl k
      go (some e) =
          let failed = error_record i now r.id e in
          let seen = error_counts encode streaming enable_isl generic failed a refl k in
          complete_counts encode streaming enable_isl done
            (process_record encode streaming enable_isl failed a) refl
            (subst (IsTracked r.id) (sym seen) k)
          ∙ ap (λ v. (v.2, v.3 + 1)) seen

  -- A result of a query that is not terminated yet, outside a warmup, in a session whose sample's row is in the aggregator: the session publishes events whose processing counts exactly one tracked completion, and exactly one tracked failure where the result has an error and none otherwise.
  pub result-counted_once :
      (r : QueryResult) (now : ℕ) (p : PhaseIssuer) (s : Session) (a : Aggregator)
      → contains r.id p.completed_uuids ≡ false
      → is_warmup s.phase_type ≡ false
      → IsTracked r.id (view a)
      → (es : List EventRecord) × ((handle_result r now p s).published ≡ s.published ++ es)
        × (counts (process_records encode streaming enable_isl es a).counters ≡ (
          (if is_some r.error then a.counters.tracked_failed + 1 else a.counters.tracked_failed),
          a.counters.tracked_completed + 1,
        ))
  result-counted_once r now p s a awaited cold tracked =
      let i = info_of (some p) r.id in
      (
        events_of i now r false,
        result-published r now p s awaited ∙ ap (λ w. s.published ++ events_of i now r w) cold,
        processed i now r a tracked,
      )

module _ (encode : List ToolCall → String) (streaming enable_isl : Bool)
    (reply : List TokenizationInput → Reply) where
  -- the batches that the subscriber hands to `process`
  unfoldable pub process_batches : List (List EventRecord) → Aggregator → Aggregator
  process_batches [] a = a
  process_batches (b ∷ bs) a = process_batches bs (process encode streaming enable_isl reply b a)

  batches-IsAt :
      (st : Stage) (bs : List (List EventRecord)) (a : Aggregator)
      → IsAt st a
      → IsAt (stage_after st (concat bs)) (process_batches bs a)
  unfolding process_batches
  batches-IsAt (running i) [] a h = h
  batches-IsAt (over i) [] a h = h
  batches-IsAt st (b ∷ bs) a h = rw (stage_after-append st b (concat bs)) (
      batches-IsAt (stage_after st b) bs (process encode streaming enable_isl reply b a)
        (process-IsAt encode streaming enable_isl reply st b a h))

  -- However the events of a run are split into batches, an aggregator that starts open ends with exactly one published snapshot, and its state is interrupted exactly when the session's stop was requested.
  pub run-one_snapshot :
      (load_sample : ℕ → Option (Dict Json)) (start_ts end_ts : ℕ) (xs : List PhaseScript)
      (timeout : Option ℕ) (bs : List (List EventRecord)) (a : Aggregator)
      → concat bs ≡ (run load_sample start_ts end_ts xs (new_session timeout)).published
      → IsOpen false a
      → IsOver
          (run load_sample start_ts end_ts xs (new_session timeout)).stop_requested
          (process_batches bs a)
  run-one_snapshot load_sample start_ts end_ts xs timeout bs a e h =
      rw (ap (stage_after (running false)) e ∙ run-ends load_sample start_ts end_ts xs timeout) at
        (batches-IsAt (running false) bs a h)
