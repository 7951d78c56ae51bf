-- ===== src/Metrics/Table/Rows/Writes.antt =====
-- metrics_table.py: what `set_field` and the session events do to the rows and the blocks.
use endpoints.Base.{
  ℕ, ◌≡◌, refl, some, List, [], ◌∷◌, ◌++◌, String, arith, length, length-append, if◌then◌else◌,
  Bool-cases, Option-cases, inl, inr,
}
use endpoints.Base.Dict.{lookup, insert, contains, length-insert, length-erase}
use endpoints.Core.Output.{ToolCall}
use endpoints.Core.Record.{
  EventRecord, issued, complete, recv_first, recv_non_first, SessionEventType, started,
  start_performance_tracking, stop_performance_tracking,
}
use endpoints.Metrics.Table.{
  SampleField, SampleRow, TrackedBlock, Trigger, Sinks, MetricsTable, handle_session_event,
  total_completed, set_row,
}
use endpoints.Metrics.Table.Fields.{set_field, finish_field, with_row, row_or_fresh, last_index}
use endpoints.Metrics.Table.Rows.{
  InRange, EveryRow-mono, EveryRow-lookup, EveryRow-insert, EveryRow-erase, idx-set_row,
  update-Updated, contains-insert, length-insert_le, last_index-InRange, IsSound, Moved, Opened,
}

module _ (encode : List ToolCall → String) (triggers : SampleField → List Trigger) where
  finish_kept :
      (uuid : String) (f : SampleField) (v : ℕ) (row : SampleRow) (t : MetricsTable)
      → IsSound t
      → InRange (length t.tracked_blocks) row.tracked_block_idx
      → IsSound (record t { in_flight = insert uuid (set_row f v row) t.in_flight })
  finish_kept uuid f v row t h i = record {
    rows =
        EveryRow-insert (length t.tracked_blocks) uuid (set_row f v row) t.in_flight
          (rw (idx-set_row f v row) i) h.rows;
    tracking = h.tracking;
  }

  pub set_field-Opened :
      (uuid : String) (f : SampleField) (v : ℕ) (ev : EventRecord) (t : MetricsTable) (s : Sinks)
      → IsSound t
      → Opened t (set_field encode triggers issued uuid f v ev t s).0 uuid
  unfolding set_field finish_field
  set_field-Opened uuid f v ev t s h = elim (Bool-cases t.is_tracking) [
    | inl on ↦ simp on (
        let row = record (row_or_fresh (lookup uuid t.in_flight)) {
          tracked_block_idx = last_index (length t.tracked_blocks);
        } in
        record {
          sound = record {
            rows = (finish_kept uuid f v row t h (last_index-InRange _ (h.tracking on))).rows;
            tracking = λ _. h.tracking on;
          };
          rows_added =
              rw (contains-insert uuid (set_row f v row) t.in_flight)
                (omega (arith, length-insert_le uuid (set_row f v row) t.in_flight));
          completed = refl;
        })
    | inr off ↦ simp off (record { sound = h; rows_added = omega arith; completed = refl })
  ]

  write_row :
      (uuid : String) (f : SampleField) (v : ℕ) (ev : EventRecord) (row : SampleRow)
      (t : MetricsTable)
      → IsSound t
      → lookup uuid t.in_flight ≡ some row
      → Moved t (record t { in_flight = insert uuid (set_row f v row) t.in_flight }) 0
  write_row uuid f v ev row t h e = record {
    sound = finish_kept uuid f v row t h (EveryRow-lookup _ uuid t.in_flight h.rows e);
    rows_left = rw (length-insert uuid (set_row f v row) t.in_flight, e) (omega arith);
    completed = omega arith;
  }

  pub set_field_first-Moved :
      (uuid : String) (f : SampleField) (v : ℕ) (ev : EventRecord) (t : MetricsTable) (s : Sinks)
      → IsSound t
      → Moved t (set_field encode triggers recv_first uuid f v ev t s).0 0
  unfolding set_field with_row finish_field
  set_field_first-Moved uuid f v ev t s h = elim (Option-cases (lookup uuid t.in_flight)) [
    | inl absent ↦
        rw absent (record { sound = h; rows_left = omega arith; completed = omega arith })
    | inr (row, e) ↦ rw e (write_row uuid f v ev row t h e)
  ]

  pub set_field_next-Moved :
      (uuid : String) (f : SampleField) (v : ℕ) (ev : EventRecord) (t : MetricsTable) (s : Sinks)
      → IsSound t
      → Moved t (set_field encode triggers recv_non_first uuid f v ev t s).0 0
  unfolding set_field with_row finish_field
  set_field_next-Moved uuid f v ev t s h = elim (Option-cases (lookup uuid t.in_flight)) [
    | inl absent ↦
        rw absent (record { sound = h; rows_left = omega arith; completed = omega arith })
    | inr (row, e) ↦ rw e (write_row uuid f v ev row t h e)
  ]

  pub set_field_complete-Moved :
      (uuid : String) (f : SampleField) (v : ℕ) (ev : EventRecord) (t : MetricsTable) (s : Sinks)
      → IsSound t
      → Moved t
          (set_field encode triggers complete uuid f v ev t s).0
          (if contains uuid t.in_flight then 1 else 0)
  unfolding set_field with_row finish_field
  set_field_complete-Moved uuid f v ev t s h = elim (Option-cases (lookup uuid t.in_flight)) [
    | inl absent ↦
        rw absent (record { sound = h; rows_left = omega arith; completed = omega arith })
    | inr (row, e) ↦
        let at = EveryRow-lookup _ uuid t.in_flight h.rows e in
        let w = set_row f v row in
        let k = update-Updated w ev.timestamp_ns t (rw (idx-set_row f v row) at) in
        rw e (record {
          sound = record {
            rows = rw (k.same_blocks, k.same_rows) (EveryRow-erase _ uuid t.in_flight h.rows);
            tracking = λ on. rw k.same_blocks (h.tracking (rw k.same_tracking at on));
          };
          rows_left = rw k.same_rows (rw e at (length-erase uuid t.in_flight));
          completed = k.one_completed;
        })
  ]

completed-append :
    (bs : List TrackedBlock) (b : TrackedBlock)
    → b.completed_samples ≡ 0
    → total_completed (bs ++ b ∷ []) ≡ total_completed bs
completed-append [] b e = omega arith
completed-append (x ∷ bs) b e = omega (arith, completed-append bs b e)

pub handle_session_event-IsSound :
    (e : SessionEventType) (ts : ℕ) (t : MetricsTable)
    → IsSound t
    → IsSound (handle_session_event e ts t)
      × ((handle_session_event e ts t).in_flight ≡ t.in_flight)
      × (total_completed (handle_session_event e ts t).tracked_blocks
          ≡ total_completed t.tracked_blocks)
unfolding handle_session_event
handle_session_event-IsSound start_performance_tracking ts t h = elim (Bool-cases t.is_tracking) [
  | inl on ↦ simp on (h, refl, refl)
  | inr off ↦
      let b : TrackedBlock = record {
        start_ns = ts;
        last_complete_ns = ts;
        completed_samples = 0;
      } in
      let n = length-append t.tracked_blocks (b ∷ []) in
      simp off (
        record {
          rows = EveryRow-mono _ _ t.in_flight (omega (arith, n)) h.rows;
          tracking = λ on. omega (arith, n);
        },
        refl,
        completed-append t.tracked_blocks b refl,
      )
]
handle_session_event-IsSound started ts t h =
    (record { rows = h.rows; tracking = h.tracking }, refl, refl)
handle_session_event-IsSound stop_performance_tracking ts t h =
    (record { rows = h.rows; tracking = λ off. cc }, refl, refl)
handle_session_event-IsSound _ ts t h = (h, refl, refl)
