-- ===== src/Metrics/Aggregator/Process.antt =====
-- metrics_aggregator/aggregator.py: the branches on sample events, the loop of `process`, and the shutdown.
use endpoints.Base.{
  ℕ, Bool, not, ◌&&◌, ◌||◌, Option, none, some, List, [], ◌∷◌, String, ltb, ◌==◌, if◌then◌else◌,
  is_some,
}
use endpoints.Base.Dict.{lookup}
use endpoints.Core.Output.{ToolCall, nonempty}
use endpoints.Core.Record.{
  EventRecord, EventType, of_session, of_error, of_sample, SampleEventType, issued, complete,
  recv_first, recv_non_first,
}
use endpoints.Metrics.Counters
use endpoints.Metrics.Counters.{Counters, increment, set_counter, count_reason}
use endpoints.Metrics.Collector.{Collector}
use endpoints.Metrics.Queue.{TokenizationInput, Reply, TokenQueue, flush_remaining}
use endpoints.Metrics.Table.{
  SampleField, issued_ns, recv_first_ns, last_recv_ns, complete_ns, Recorder, Sinks, MetricsTable,
}
use endpoints.Metrics.Table.Triggers.{run_recorder}
use endpoints.Metrics.Table.Fields.{set_field}
use endpoints.Metrics.Publisher
use endpoints.Metrics.Publisher.{Publisher, SessionState}
use endpoints.Metrics.Aggregator.{
  Aggregator, register_triggers, note_elapsed, write_windows, on_session, on_error, count_issued,
  collect_first, collect_complete, count_complete,
}

module _ (encode : List ToolCall → String) (streaming enable_isl : Bool) where
  unfoldable pub write_field :
      SampleEventType → SampleField → EventRecord → MetricsTable → Sinks → MetricsTable × Sinks
  write_field e f r =
      set_field encode (register_triggers streaming enable_isl) e r.sample_uuid f r.timestamp_ns r

  -- the branches on the sample events
  unfoldable pub on_sample : SampleEventType → EventRecord → Aggregator → Aggregator
  on_sample issued r a =
      let (t, s) = write_field issued issued_ns r a.table a.sinks in
      count_issued r.sample_uuid r.timestamp_ns (lookup r.sample_uuid t.in_flight) (record a {
        table = t;
        sinks = s;
        counters = increment Counters.total_samples_issued a.counters;
      })
  on_sample recv_first r a =
      let row = lookup r.sample_uuid a.table.in_flight in
      let (t, s) = write_field recv_first recv_first_ns r a.table a.sinks in
      let (t', s') = write_field recv_first last_recv_ns r t s in
      record a { table = t'; sinks = collect_first row r s' }
  on_sample recv_non_first r a =
      let (t, s) = write_field recv_non_first last_recv_ns r a.table a.sinks in
      record a { table = t; sinks = s }
  on_sample complete r a =
      let row = lookup r.sample_uuid a.table.in_flight in
      let (t, s) = write_field complete complete_ns r a.table a.sinks in
      record a {
        table = t;
        sinks = collect_complete row r.timestamp_ns s;
        counters = count_complete (is_some row) r.finish_reason a.counters;
      }

  unfoldable pub dispatch : EventType → EventRecord → Aggregator → Aggregator
  dispatch (of_session e) r a = on_session e r a
  dispatch (of_error e) r a = on_error r a
  dispatch (of_sample e) r a = if nonempty r.sample_uuid then on_sample e r a else a

  -- one round of the loop of `process`; once ENDED was seen the loop breaks
  unfoldable pub process_record : EventRecord → Aggregator → Aggregator
  process_record r a =
      if a.shutdown_received then a else dispatch r.event_type r (note_elapsed r.timestamp_ns a)

  unfoldable pub process_records : List EventRecord → Aggregator → Aggregator
  process_records [] a = a
  process_records (r ∷ rs) a = process_records rs (process_record r a)

  unfoldable pub run_recorders : List (Recorder × ℕ) → Sinks → Sinks
  run_recorders [] s = s
  run_recorders ((r, n) ∷ rs) s = run_recorders rs (run_recorder r n s)

  -- the drain: the sinks after it and `n_pending`
  unfoldable pub drain : (List TokenizationInput → Reply) → Sinks → Sinks × ℕ
  drain reply s = go s.queue
    where
      go : Option (TokenQueue Recorder) → Sinks × ℕ
      go none = (s, 0)
      go (some q) =
          let f = flush_remaining reply q in
          (run_recorders f.recorded (record s { queue = some f.queue }), f.queue.pending)

  -- `_steady_state_verdict`: which collector is analysed
  unfoldable pub steady_state_of : Bool → ℕ → Option Collector → Option Collector
  steady_state_of stopped n none = none
  steady_state_of stopped n (some c) =
      if stopped || ltb 0 n || c.superpass_size == 0 then none else some c

  -- the block `if saw_shutdown`
  unfoldable pub finish : (List TokenizationInput → Reply) → Aggregator → Aggregator
  finish reply a =
      let (s, n) = drain reply a.sinks in
      let c = write_windows a.table a.counters in
      record a {
        session_state = Publisher.draining;
        sinks = s;
        counters = c;
        publisher = Publisher.close (
            Publisher.publish_final c n a.interrupted (steady_state_of a.interrupted n s.collector)
              a.publisher);
      }

  -- `process(records)`
  unfoldable pub process :
      (List TokenizationInput → Reply) → List EventRecord → Aggregator → Aggregator
  process reply rs a =
      let b = process_records rs a in
      if not a.shutdown_received && b.shutdown_received then finish reply b else b
