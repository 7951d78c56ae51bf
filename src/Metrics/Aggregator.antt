-- ===== src/Metrics/Aggregator.antt =====
-- metrics_aggregator/aggregator.py: `MetricsAggregatorService`, one event record at a time. `encode` is
-- msgspec's JSON encoder, and `reply` is what the tokenizer does with the batch of the final drain.
pub mod Invariant
pub mod Finish
pub mod Failures
pub mod Process
use endpoints.Base.{
  ℕ, ◌+◌, ◌-◌, Bool, true, false, not, ◌&&◌, ◌||◌, Option, none, some, List, [], ◌∷◌, ◌++◌, String,
  ltb, ◌==◌, if◌then◌else◌, is_some,
}
use endpoints.Base.Dict.{lookup, insert, contains}
use endpoints.Core.Output.{ToolCall, nonempty}
use endpoints.Core.Record.{
  EventRecord, EventType, of_session, of_error, of_sample, SessionEventType, started, ended,
  interrupted, phase_start, start_performance_tracking, stop_performance_tracking, stop_loadgen,
  SampleEventType, issued, complete, recv_first, recv_non_first, Payload, phase, PhaseType,
  performance,
}
use endpoints.Metrics.Counters
use endpoints.Metrics.Counters.{Counters, increment, set_counter, count_reason}
use endpoints.Metrics.Collector.{
  Collector, announce_phase, assign, reissue, on_recv_first, on_complete,
}
use endpoints.Metrics.Queue.{TokenizationInput, Reply, TokenQueue, flush_remaining}
use endpoints.Metrics.Table.{
  SampleField, issued_ns, recv_first_ns, last_recv_ns, complete_ns, SampleRow, Trigger, isl_trigger,
  osl_trigger, tpot_trigger, sample_latency_trigger, ttft_trigger, chunk_delta_trigger, Recorder,
  Sinks, MetricsTable, handle_session_event, total_duration, total_loadgen_window_ns,
}
use endpoints.Metrics.Table.Triggers.{run_recorder}
use endpoints.Metrics.Table.Fields.{set_field}
use endpoints.Metrics.Publisher
use endpoints.Metrics.Publisher.{Publisher, SessionState}

pub record Aggregator : Type 0 where
  pub table : MetricsTable
  pub sinks : Sinks
  pub counters : Counters
  pub publisher : Publisher
  pub session_start_ns : Option ℕ
  pub session_state : SessionState
  pub interrupted : Bool
  pub shutdown_received : Bool

-- `_register_triggers`, as the table's `_triggers`
unfoldable pub register_triggers : Bool → Bool → SampleField → List Trigger
register_triggers streaming enable_isl issued_ns = if enable_isl then isl_trigger ∷ [] else []
register_triggers streaming enable_isl recv_first_ns = if streaming then ttft_trigger ∷ [] else []
register_triggers streaming enable_isl last_recv_ns =
    if streaming then chunk_delta_trigger ∷ [] else []
register_triggers streaming enable_isl complete_ns =
    sample_latency_trigger ∷ osl_trigger ∷ (if streaming then tpot_trigger ∷ [] else [])

-- `_total_duration_ns` and its counter are always equal: one field serves both. An event from before
-- the session's start has a negative elapsed time in Python, and 0 here: neither passes the test.
unfoldable pub note_elapsed : ℕ → Aggregator → Aggregator
note_elapsed ts a = go a.session_start_ns
  where
    go : Option ℕ → Aggregator
    go none = a
    go (some start) =
        if ltb a.counters.total_duration (ts - start)
        then record a { counters = set_counter Counters.total_duration_ns (ts - start) a.counters }
        else a

-- the windows that are written at STOP_PERFORMANCE_TRACKING and at the end
unfoldable pub write_windows : MetricsTable → Counters → Counters
write_windows t c =
    set_counter Counters.legacy_loadgen_window_duration_ns (total_loadgen_window_ns t)
      (set_counter Counters.tracked_duration_ns (total_duration t.tracked_blocks) c)

abbrev pub with_collector : (Collector → Collector) → Sinks → Sinks
with_collector f s = record s { collector = go s.collector }
  where
    go : Option Collector → Option Collector
    go none = none
    go (some c) = some (f c)

abbrev pub is_performance : PhaseType → Bool
is_performance performance = true
is_performance _ = false

-- PHASE_START: only a performance phase defines the bucket size
unfoldable pub on_phase_start : Payload → Aggregator → Aggregator
on_phase_start (phase p) a =
    if is_performance p.phase_type
    then record a { sinks = with_collector (announce_phase p.num_turns) a.sinks }
    else a
on_phase_start _ a = a

-- STARTED: a duplicate is ignored
unfoldable pub on_started : ℕ → Aggregator → Aggregator
on_started ts a = go a.session_start_ns
  where
    go : Option ℕ → Aggregator
    go (some _) = a
    go none = record a {
      session_start_ns = some ts;
      session_state = Publisher.live;
      publisher = Publisher.start a.publisher;
    }

abbrev pub to_table : SessionEventType → ℕ → Aggregator → Aggregator
to_table e ts a = record a { table = handle_session_event e ts a.table }

unfoldable pub on_session : SessionEventType → EventRecord → Aggregator → Aggregator
on_session ended r a = record a { shutdown_received = true }
on_session interrupted r a = record a { interrupted = true }
on_session phase_start r a = on_phase_start r.payload a
on_session started r a = to_table started r.timestamp_ns (on_started r.timestamp_ns a)
on_session stop_performance_tracking r a =
    let b = to_table stop_performance_tracking r.timestamp_ns a in
    record b { counters = write_windows b.table b.counters }
on_session e r a = to_table e r.timestamp_ns a

-- an error is counted as tracked while its sample's row is there
unfoldable pub on_error : EventRecord → Aggregator → Aggregator
on_error r a =
    let c = increment Counters.total_samples_failed a.counters in
    record a {
      counters =
          if nonempty r.sample_uuid && contains r.sample_uuid a.table.in_flight
          then increment Counters.tracked_samples_failed c
          else c;
    }

-- the collector's part of ISSUED: a row that has a super-pass already is a retry
unfoldable pub bucket_row : ℕ → SampleRow → Collector → SampleRow × Collector
bucket_row ts row c = go row.superpass_index
  where
    go : Option ℕ → SampleRow × Collector
    go none = let (i, c') = assign ts c in (record row { superpass_index = i }, c')
    go (some i) = (row, reissue i ts c)

-- `if collector is not None and table.is_tracking`, on the row of an ISSUED sample
unfoldable pub bucket_issue : String → ℕ → SampleRow → Aggregator → Aggregator
bucket_issue uuid ts row a = go a.sinks.collector
  where
    go : Option Collector → Aggregator
    go none = a
    go (some c) =
        if a.table.is_tracking
        then (let (row', c') = bucket_row ts row c in
            record a {
              table = record a.table { in_flight = insert uuid row' a.table.in_flight };
              sinks = record a.sinks { collector = some c' };
            })
        else a

-- the part of ISSUED after `table.get_row(uuid)`
unfoldable pub count_issued : String → ℕ → Option SampleRow → Aggregator → Aggregator
count_issued uuid ts none a = a
count_issued uuid ts (some row) a =
    bucket_issue uuid ts row
      (record a { counters = increment Counters.tracked_samples_issued a.counters })

abbrev pub not_set : Option ℕ → Bool
not_set none = true
not_set (some _) = false

-- the collector's part of RECV_FIRST and of COMPLETE, on the row as it was before
unfoldable pub collect_first : Option SampleRow → EventRecord → Sinks → Sinks
collect_first none r s = s
collect_first (some row) r s = go row.superpass_index row.issued_ns
  where
    go : Option ℕ → Option ℕ → Sinks
    go (some i) (some at) =
        with_collector (on_recv_first i at r.timestamp_ns r.turn (not_set row.recv_first_ns)) s
    go _ _ = s

unfoldable pub collect_complete : Option SampleRow → ℕ → Sinks → Sinks
collect_complete none ts s = s
collect_complete (some row) ts s = go row.superpass_index row.issued_ns
  where
    go : Option ℕ → Option ℕ → Sinks
    go (some i) (some at) = with_collector (on_complete i at ts) s
    go _ _ = s

-- the counters of COMPLETE, where `tracked` says that there was a row
unfoldable pub count_complete : Bool → Option String → Counters → Counters
count_complete tracked reason c =
    let d = increment Counters.total_samples_completed c in
    if tracked then count_reason reason (increment Counters.tracked_samples_completed d) else d
