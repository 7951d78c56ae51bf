-- ===== src/Metrics/Aggregator/Invariant/Records.antt =====
-- aggregator.py: every event record keeps the books.
use endpoints.Base.{
  ℕ, ◌+◌, ◌≤◌, Bool, true, false, ◌≡◌, List, [], ◌∷◌, String, arith, if◌then◌else◌, Bool-cases,
  Option-cases, inl, inr,
}
use endpoints.Base.Dict.{lookup, contains}
use endpoints.Core.Output.{ToolCall, nonempty}
use endpoints.Core.Record.{
  EventRecord, EventType, of_session, of_error, of_sample, SampleEventType, issued, complete,
  recv_first, recv_non_first,
}
use endpoints.Metrics.Counters.{Counters, total_samples_issued, tracked_samples_issued, increment}
use endpoints.Metrics.Table.{
  SampleField, MetricsTable, Sinks, issued_ns, recv_first_ns, last_recv_ns, complete_ns,
}
use endpoints.Metrics.Table.Rows.{IsSound, Moved, Opened}
use endpoints.Metrics.Table.Rows.Writes.{
  set_field-Opened, set_field_first-Moved, set_field_next-Moved, set_field_complete-Moved,
}
use endpoints.Metrics.Aggregator.{Aggregator, note_elapsed, count_issued, register_triggers}
use endpoints.Metrics.Aggregator.Process.{
  on_sample, dispatch, process_record, process_records, write_field,
}
use endpoints.Metrics.Aggregator.Invariant.{
  note_elapsed-Books, on_session-Books, on_error-Books, count_complete-Balanced, bucket_issue-Books,
  IsBalanced, Books,
}

-- ISSUED in the counters, where `tracked` says that the sample has a row
issue-Balanced :
    (tracked : Bool) (c : Counters) (n m d : ℕ)
    → IsBalanced c n d
    → m ≤ n + (if tracked then 1 else 0)
    → IsBalanced
        (let d = increment total_samples_issued c in
          if tracked then increment tracked_samples_issued d else d)
        m
        d
unfolding increment
issue-Balanced true c n m d h le = ground arith
issue-Balanced false c n m d h le = ground arith

count_issued-Books :
    (uuid : String) (ts : ℕ) (t : MetricsTable) (s : Sinks) (a : Aggregator)
    → Books a
    → Opened a.table t uuid
    → Books (
        count_issued uuid ts
          (lookup uuid t.in_flight)
          (record a { table = t; sinks = s; counters = increment total_samples_issued a.counters }))
unfolding count_issued
count_issued-Books uuid ts t s a h o = elim (Option-cases (lookup uuid t.in_flight)) [
  | inl absent ↦ simp absent (record {
    sound = o.sound;
    balanced =
        rw o.completed
          (issue-Balanced false a.counters _ _ _ h.balanced (rw absent at o.rows_added));
  })
  | inr (row, e) ↦ simp e (
      bucket_issue-Books uuid ts row
        (record a {
          table = t;
          sinks = s;
          counters = increment tracked_samples_issued (increment total_samples_issued a.counters);
        })
        e
        (record {
          sound = o.sound;
          balanced =
              rw o.completed
                (issue-Balanced true a.counters _ _ _ h.balanced (rw e at o.rows_added));
        }))
]

fewer-Balanced : (c : Counters) (n m d e : ℕ) → IsBalanced c n d → m ≡ n → e ≡ d → IsBalanced c m e
fewer-Balanced c n m d e h p q = ground arith

Moved-Books :
    (a : Aggregator) (t u : MetricsTable) (s : Sinks)
    → Books a
    → Moved a.table t 0
    → Moved t u 0
    → Books (record a { table = u; sinks = s })
Moved-Books a t u s h m k = record {
  sound = k.sound;
  balanced =
      rw (k.completed, m.completed)
        (fewer-Balanced a.counters _ _ _ _ h.balanced (omega (arith, k.rows_left, m.rows_left))
          (omega arith));
}

module _ (encode : List ToolCall → String) (streaming enable_isl : Bool) where
  module _ (r : EventRecord) (t : MetricsTable) (s : Sinks) (h : IsSound t) where
    write_issued :
        Opened t (write_field encode streaming enable_isl issued issued_ns r t s).0 r.sample_uuid
    unfolding write_field
    write_issued =
        set_field-Opened encode (register_triggers streaming enable_isl) r.sample_uuid issued_ns
          r.timestamp_ns r t s h

    write_first :
        (f : SampleField) → Moved t (write_field encode streaming enable_isl recv_first f r t s).0 0
    unfolding write_field
    write_first f =
        set_field_first-Moved encode (register_triggers streaming enable_isl) r.sample_uuid f
          r.timestamp_ns r t s h

    write_next :
        (f : SampleField)
        → Moved t (write_field encode streaming enable_isl recv_non_first f r t s).0 0
    unfolding write_field
    write_next f =
        set_field_next-Moved encode (register_triggers streaming enable_isl) r.sample_uuid f
          r.timestamp_ns r t s h

    write_complete :
        Moved t
          (write_field encode streaming enable_isl complete complete_ns r t s).0
          (if contains r.sample_uuid t.in_flight then 1 else 0)
    unfolding write_field
    write_complete =
        set_field_complete-Moved encode (register_triggers streaming enable_isl) r.sample_uuid
          complete_ns r.timestamp_ns r t s h

  on_sample-Books :
      (e : SampleEventType) (r : EventRecord) (a : Aggregator)
      → Books a
      → Books (on_sample encode streaming enable_isl e r a)
  unfolding on_sample
  on_sample-Books issued r a h =
      let w = write_field encode streaming enable_isl issued issued_ns r a.table a.sinks in
      count_issued-Books r.sample_uuid r.timestamp_ns w.0 w.1 a h
        (write_issued r a.table a.sinks h.sound)
  on_sample-Books recv_first r a h =
      let w = write_field encode streaming enable_isl recv_first recv_first_ns r a.table a.sinks in
      let m = write_first r a.table a.sinks h.sound recv_first_ns in
      Moved-Books a w.0 _ _ h m (write_first r w.0 w.1 m.sound last_recv_ns)
  on_sample-Books recv_non_first r a h =
      let m = write_next r a.table a.sinks h.sound last_recv_ns in
      Moved-Books a a.table _ _ h
        (record { sound = h.sound; rows_left = omega arith; completed = omega arith }) m
  on_sample-Books complete r a h =
      let m = write_complete r a.table a.sinks h.sound in
      record {
        sound = m.sound;
        balanced =
            count_complete-Balanced (contains r.sample_uuid a.table.in_flight) r.finish_reason
              a.counters _ _ _ _ h.balanced m.rows_left m.completed;
      }

  dispatch-Books :
      (e : EventType) (r : EventRecord) (a : Aggregator)
      → Books a
      → Books (dispatch encode streaming enable_isl e r a)
  unfolding dispatch
  dispatch-Books (of_session e) r a h = on_session-Books e r a h
  dispatch-Books (of_error e) r a h = on_error-Books r a h
  dispatch-Books (of_sample e) r a h = elim (Bool-cases (nonempty r.sample_uuid)) [
    | inl named ↦ rw named (on_sample-Books e r a h)
    | inr unnamed ↦ rw unnamed h
  ]

  process_record-Books :
      (r : EventRecord) (a : Aggregator)
      → Books a
      → Books (process_record encode streaming enable_isl r a)
  unfolding process_record
  process_record-Books r a h = elim (Bool-cases a.shutdown_received) [
    | inl over ↦ simp over h
    | inr going ↦ simp going (
        dispatch-Books r.event_type r (note_elapsed r.timestamp_ns a)
          (note_elapsed-Books r.timestamp_ns a h))
  ]

  -- After any sequence of event records, in any order and with any repetitions, from an aggregator whose books balance, they balance: every in-flight row belongs to a block that exists, the tracked completions are those that the blocks counted, completed and in-flight rows together do not exceed the tracked issues, the tracked counters do not exceed the total ones, and the finish reasons counted do not exceed the tracked completions.
  pub process_records-Books :
      (rs : List EventRecord) (a : Aggregator)
      → Books a
      → Books (process_records encode streaming enable_isl rs a)
  unfolding process_records
  process_records-Books [] a h = h
  process_records-Books (r ∷ rs) a h =
      process_records-Books rs (process_record encode streaming enable_isl r a)
        (process_record-Books r a h)
