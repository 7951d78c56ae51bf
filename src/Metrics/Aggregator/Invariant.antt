-- ===== src/Metrics/Aggregator/Invariant.antt =====
-- aggregator.py: the books that the counters keep about the in-flight rows and the tracked blocks.
pub mod Records
use endpoints.Base.{
  ℕ, ◌+◌, ◌≤◌, Bool, true, false, ◌≡◌, refl, Option, none, some, List, [], ◌∷◌, String, arith,
  length, if◌then◌else◌, is_some, ltb, ◌-◌, Bool-cases, Option-cases, inl, inr,
}
use endpoints.Base.Dict.{lookup, insert, length-insert, contains}
use endpoints.Core.Output.{ToolCall, nonempty}
use endpoints.Core.Record.{
  EventRecord, EventType, of_session, of_error, of_sample, SessionEventType, started, ended,
  interrupted, phase_start, start_performance_tracking, stop_performance_tracking, stop_loadgen,
  SampleEventType, issued, complete, recv_first, recv_non_first, Payload, phase,
}
use endpoints.Metrics.Counters.{
  Counters, total_samples_issued, tracked_samples_issued, increment, set_counter, count_reason,
  reason_key, adjust,
}
use endpoints.Metrics.Collector.{Collector, assign}
use endpoints.Metrics.Table.{
  SampleRow, SampleField, MetricsTable, Sinks, total_completed, handle_session_event, issued_ns,
  recv_first_ns, last_recv_ns, complete_ns,
}
use endpoints.Metrics.Table.Rows.{
  IsSound, InRange, EveryRow, EveryRow-insert, EveryRow-lookup, Moved, Opened,
}
use endpoints.Metrics.Table.Rows.Writes.{
  set_field-Opened, set_field_first-Moved, set_field_next-Moved, set_field_complete-Moved,
  handle_session_event-IsSound,
}
use endpoints.Metrics.Aggregator.{
  Aggregator, note_elapsed, write_windows, on_phase_start, on_started, on_session, on_error,
  bucket_row, bucket_issue, count_issued, count_complete, register_triggers, is_performance,
}
use endpoints.Metrics.Aggregator.Process.{
  on_sample, dispatch, process_record, process_records, write_field,
}

abbrev pub reasons : Counters → ℕ
reasons c =
    c.reason_stop + c.reason_length + c.reason_tool_calls + c.reason_content_filter
    + c.reason_function_call + c.reason_other

-- What the counters say of the rows and the blocks, where `n` rows are in flight and `d` samples were
-- counted by the blocks.
pub record IsBalanced (c : Counters) (n d : ℕ) : Type 0 where
  pub completed : c.tracked_completed ≡ d
  pub open_rows : c.tracked_completed + n ≤ c.tracked_issued
  pub issued_total : c.tracked_issued ≤ c.total_issued
  pub completed_total : c.tracked_completed ≤ c.total_completed
  pub failed_total : c.tracked_failed ≤ c.total_failed
  pub finish_reasons : reasons c ≤ c.tracked_completed

pub record Books (a : Aggregator) : Type 0 where
  pub sound : IsSound a.table
  pub balanced :
      IsBalanced a.counters (length a.table.in_flight) (total_completed a.table.tracked_blocks)

pub note_elapsed-Books : (ts : ℕ) (a : Aggregator) → Books a → Books (note_elapsed ts a)
unfolding note_elapsed set_counter
note_elapsed-Books ts a h = elim (Option-cases a.session_start_ns) [
  | inl unset ↦ simp unset h
  | inr (start, e) ↦ simp e (elim (Bool-cases (ltb a.counters.total_duration (ts - start))) [
    | inl longer ↦ simp longer (record { sound = h.sound; balanced = ground arith })
    | inr shorter ↦ simp shorter h
  ])
]

pub to_table-Books :
    (e : SessionEventType) (ts : ℕ) (a : Aggregator)
    → Books a
    → Books (record a { table = handle_session_event e ts a.table })
to_table-Books e ts a h =
    let (s, same, done) = handle_session_event-IsSound e ts a.table h.sound in
    record { sound = s; balanced = rw (same, done) h.balanced }

pub on_started-Books : (ts : ℕ) (a : Aggregator) → Books a → Books (on_started ts a)
unfolding on_started
on_started-Books ts a h = elim (Option-cases a.session_start_ns) [
  | inl unset ↦ simp unset (record { sound = h.sound; balanced = h.balanced })
  | inr (start, e) ↦ simp e h
]

pub on_phase_start-Books : (p : Payload) (a : Aggregator) → Books a → Books (on_phase_start p a)
unfolding on_phase_start
on_phase_start-Books (phase p) a h = elim (Bool-cases (is_performance p.phase_type)) [
  | inl yes_it_is ↦ simp yes_it_is (record { sound = h.sound; balanced = h.balanced })
  | inr not_so ↦ simp not_so h
]
on_phase_start-Books _ a h = h

pub write_windows-Balanced :
    (t : MetricsTable) (c : Counters) (n d : ℕ)
    → IsBalanced c n d
    → IsBalanced (write_windows t c) n d
unfolding write_windows set_counter
write_windows-Balanced t c n d h = ground arith

pub on_session-Books :
    (e : SessionEventType) (r : EventRecord) (a : Aggregator) → Books a → Books (on_session e r a)
unfolding on_session
on_session-Books ended r a h = record { sound = h.sound; balanced = h.balanced }
on_session-Books interrupted r a h = record { sound = h.sound; balanced = h.balanced }
on_session-Books phase_start r a h = on_phase_start-Books r.payload a h
on_session-Books started r a h =
    to_table-Books started r.timestamp_ns (on_started r.timestamp_ns a)
      (on_started-Books r.timestamp_ns a h)
on_session-Books stop_performance_tracking r a h =
    let b = to_table-Books stop_performance_tracking r.timestamp_ns a h in
    record {
      sound = b.sound;
      balanced =
          write_windows-Balanced
            (handle_session_event stop_performance_tracking r.timestamp_ns a.table) a.counters _ _
            b.balanced;
    }
on_session-Books start_performance_tracking r a h =
    to_table-Books start_performance_tracking r.timestamp_ns a h
on_session-Books stop_loadgen r a h = to_table-Books stop_loadgen r.timestamp_ns a h

pub on_error-Books : (r : EventRecord) (a : Aggregator) → Books a → Books (on_error r a)
unfolding on_error increment
on_error-Books r a h = record { sound = h.sound; balanced = ground arith }

pub count_complete-Balanced :
    (tracked : Bool) (reason : Option String) (c : Counters) (n m d d' : ℕ)
    → IsBalanced c n d
    → m + (if tracked then 1 else 0) ≡ n
    → d' ≡ d + (if tracked then 1 else 0)
    → IsBalanced (count_complete tracked reason c) m d'
unfolding count_complete increment count_reason
count_complete-Balanced true none c n m d d' h e k = ground arith
count_complete-Balanced true (some s) c n m d d' h e k = ground arith
count_complete-Balanced false reason c n m d d' h e k = ground arith

pub bucket_row-idx :
    (ts : ℕ) (row : SampleRow) (c : Collector)
    → (bucket_row ts row c).0.tracked_block_idx ≡ row.tracked_block_idx
unfolding bucket_row
bucket_row-idx ts row c = elim (Option-cases row.superpass_index) [
  | inl fresh ↦ simp fresh refl
  | inr (i, old) ↦ simp old refl
]

pub bucket_issue-Books :
    (uuid : String) (ts : ℕ) (row : SampleRow) (a : Aggregator)
    → lookup uuid a.table.in_flight ≡ some row
    → Books a
    → Books (bucket_issue uuid ts row a)
unfolding bucket_issue
bucket_issue-Books uuid ts row a e h = elim (Option-cases a.sinks.collector) [
  | inl off ↦ simp off h
  | inr (c, on) ↦ simp on (elim (Bool-cases a.table.is_tracking) [
    | inl tracked ↦ simp tracked (record {
      sound = record {
        rows =
            EveryRow-insert _ uuid (bucket_row ts row c).0 a.table.in_flight
              (rw (bucket_row-idx ts row c)
                (EveryRow-lookup _ uuid a.table.in_flight h.sound.rows e))
              h.sound.rows;
        tracking = λ _. h.sound.tracking tracked;
      };
      balanced = rw (length-insert uuid (bucket_row ts row c).0 a.table.in_flight, e) h.balanced;
    })
    | inr untracked ↦ simp untracked h
  ])
]
