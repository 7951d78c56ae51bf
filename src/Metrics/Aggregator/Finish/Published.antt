-- ===== src/Metrics/Aggregator/Finish/Published.antt =====
-- aggregator.py and publisher.py: what is published at the end of a session.
use endpoints.Base.{
  ℕ, ◌+◌, Bool, true, false, not, ◌&&◌, ◌||◌, ◌≡◌, refl, sym, ◌∙◌, ap, Option, List, [], ◌∷◌, ◌++◌,
  String, if◌then◌else◌, Bool-cases, if_true, if_false, inl, inr,
}
use endpoints.Base.Dict.{lookup}
use endpoints.Core.Output.{ToolCall, nonempty}
use endpoints.Core.Record.{
  EventRecord, EventType, of_session, of_error, of_sample, SampleEventType, issued, complete,
  recv_first, recv_non_first,
}
use endpoints.Core.Record.Markers.{
  is_ended, is_interrupted, ended_alone, Stage, running, over, stage_after,
}
use endpoints.Metrics.Counters
use endpoints.Metrics.Counters.{increment}
use endpoints.Metrics.Collector.{Collector}
use endpoints.Metrics.Queue.{TokenizationInput, Reply}
use endpoints.Metrics.Table.{issued_ns}
use endpoints.Metrics.Publisher.{Snapshot, Publisher, publish_final, close, terminal_state}
use endpoints.Metrics.Aggregator.{Aggregator, note_elapsed, on_error, write_windows}
use endpoints.Metrics.Aggregator.Process.{
  on_sample, write_field, dispatch, process_record, process_records, finish, process, drain,
  steady_state_of,
}
use endpoints.Metrics.Aggregator.Finish.{
  Flags, flags, note_elapsed-flags, count_issued-flags, marked, on_session-flags, IsAt, IsOver,
}

-- The flags after a stream: ENDED stops the reading.
abbrev scan : List EventRecord → Flags → Flags
scan [] f = f
scan (r ∷ rs) f = if f.0 then f else scan rs (marked r.event_type f)

scan-over : (rs : List EventRecord) (f : Flags) → f.0 ≡ true → scan rs f ≡ f
scan-over [] f e = refl
scan-over (r ∷ rs) f e = simp e refl

abbrev of_stage : Stage → Bool → List Snapshot → Flags
of_stage (running i) f w = (false, i, f, w)
of_stage (over i) f w = (true, i, f, w)

-- The flags follow the stages.
scan-stage :
    (rs : List EventRecord) (i f : Bool) (w : List Snapshot)
    → scan rs (false, i, f, w) ≡ of_stage (stage_after (running i) rs) f w
scan-stage [] i f w = refl
scan-stage (r ∷ rs) i f w = elim (Bool-cases (is_ended r.event_type)) [
  | inl last ↦ rw (last, ended_alone r.event_type last) (scan-over rs (true, i, f, w) refl)
  | inr other ↦ rw other (scan-stage rs (is_interrupted r.event_type || i) f w)
]

close-written : (p : Publisher) → (close p).written ≡ p.written
unfolding close
close-written p = elim (Bool-cases p.closed) [
  | inl closed ↦ simp closed refl
  | inr still_there ↦ simp still_there refl
]

abbrev terminal_snapshot : Counters.Counters → ℕ → Bool → Option Collector → Publisher → Snapshot
terminal_snapshot c n stopped steady p = record {
  counter = p.emitted + 1;
  state = terminal_state stopped;
  n_pending_tasks = n;
  counters = c;
  steady_state = steady;
}

publish_final-first :
    (c : Counters.Counters) (n : ℕ) (stopped : Bool) (steady : Option Collector) (p : Publisher)
    → p.finalized ≡ false
    → p.written ≡ []
    → (close (publish_final c n stopped steady p)).written
      ≡ terminal_snapshot c n stopped steady p ∷ []
unfolding publish_final
publish_final-first c n stopped steady p e w =
    close-written (publish_final c n stopped steady p)
    ∙ ap Publisher.written (if_false p.finalized p _ e)
    ∙ ap (λ l. l ++ terminal_snapshot c n stopped steady p ∷ []) w

module _ (encode : List ToolCall → String) (streaming enable_isl : Bool) where
  on_sample-flags :
      (e : SampleEventType) (r : EventRecord) (a : Aggregator)
      → flags (on_sample encode streaming enable_isl e r a) ≡ flags a
  unfolding on_sample
  on_sample-flags issued r a =
      let w = write_field encode streaming enable_isl issued issued_ns r a.table a.sinks in
      count_issued-flags r.sample_uuid r.timestamp_ns (lookup r.sample_uuid w.0.in_flight)
        (record a {
          table = w.0;
          sinks = w.1;
          counters = increment Counters.total_samples_issued a.counters;
        })
  on_sample-flags recv_first r a = refl
  on_sample-flags recv_non_first r a = refl
  on_sample-flags complete r a = refl

  dispatch-flags :
      (e : EventType) (r : EventRecord) (a : Aggregator)
      → flags (dispatch encode streaming enable_isl e r a) ≡ marked e (flags a)
  unfolding dispatch on_error
  dispatch-flags (of_session e) r a = on_session-flags e r a
  dispatch-flags (of_error e) r a = refl
  dispatch-flags (of_sample e) r a = elim (Bool-cases (nonempty r.sample_uuid)) [
    | inl named ↦ rw named (on_sample-flags e r a)
    | inr unnamed ↦ rw unnamed refl
  ]

  process_record-over :
      (r : EventRecord) (a : Aggregator)
      → a.shutdown_received ≡ true
      → process_record encode streaming enable_isl r a ≡ a
  unfolding process_record
  process_record-over r a shut = if_true a.shutdown_received a _ shut

  process_record-flags :
      (r : EventRecord) (a : Aggregator)
      → a.shutdown_received ≡ false
      → flags (process_record encode streaming enable_isl r a) ≡ marked r.event_type (flags a)
  unfolding process_record
  process_record-flags r a going =
      ap flags (if_false a.shutdown_received a _ going)
      ∙ dispatch-flags r.event_type r (note_elapsed r.timestamp_ns a)
      ∙ ap (marked r.event_type) (note_elapsed-flags r.timestamp_ns a)

  process_records-flags :
      (rs : List EventRecord) (a : Aggregator)
      → flags (process_records encode streaming enable_isl rs a) ≡ scan rs (flags a)
  unfolding process_records
  process_records-flags [] a = refl
  process_records-flags (r ∷ rs) a = elim (Bool-cases a.shutdown_received) [
    | inl shut ↦
        ap (λ b. flags (process_records encode streaming enable_isl rs b))
          (process_record-over r a shut)
        ∙ process_records-flags rs a
        ∙ scan-over rs (flags a) shut
        ∙ sym (if_true a.shutdown_received (flags a) _ shut)
    | inr going ↦
        process_records-flags rs (process_record encode streaming enable_isl r a)
        ∙ ap (scan rs) (process_record-flags r a going)
        ∙ sym (if_false a.shutdown_received (flags a) _ going)
  ]

  process_records-over :
      (rs : List EventRecord) (a : Aggregator)
      → a.shutdown_received ≡ true
      → process_records encode streaming enable_isl rs a ≡ a
  unfolding process_records
  process_records-over [] a shut = refl
  process_records-over (r ∷ rs) a shut =
      ap (process_records encode streaming enable_isl rs) (process_record-over r a shut)
      ∙ process_records-over rs a shut

  module _ (reply : List TokenizationInput → Reply) where
    finish-IsOver :
        (a : Aggregator) (stopped : Bool)
        → flags a ≡ (true, stopped, false, [])
        → IsOver stopped (finish encode streaming enable_isl reply a)
    unfolding finish
    finish-IsOver a stopped e = record {
      shut_down = ap (λ f. f.0) e;
      snapshot = _;
      written_once =
          publish_final-first (write_windows a.table a.counters)
            (drain encode streaming enable_isl reply a.sinks).1 a.interrupted
            (steady_state_of encode streaming enable_isl a.interrupted
              (drain encode streaming enable_isl reply a.sinks).1
              (drain encode streaming enable_isl reply a.sinks).0.collector)
            a.publisher (ap (λ f. f.2) e) (ap (λ f. f.3) e);
      terminal = ap (λ f. terminal_state f.1) e;
    }

    open-IsAt :
        (st : Stage) (a b : Aggregator)
        → a.shutdown_received ≡ false
        → flags b ≡ of_stage st false []
        → IsAt st (
            if not a.shutdown_received && b.shutdown_received
            then finish encode streaming enable_isl reply b
            else b)
    open-IsAt (running i) a b going e =
        simp (going, ap (λ f. f.0) e)
          (record {
            running_still = ap (λ f. f.0) e;
            seen = ap (λ f. f.1) e;
            not_finalized = ap (λ f. f.2) e;
            unwritten = ap (λ f. f.3) e;
          })
    open-IsAt (over i) a b going e = simp (going, ap (λ f. f.0) e) (finish-IsOver b i e)

    -- A batch of records takes a session from its stage to the stage that the two markers in the batch determine: while no ENDED was read nothing is published, and from the first ENDED on exactly one snapshot is published, whose state is interrupted when INTERRUPTED stands before that ENDED and complete otherwise, whatever the later records and batches are.
    pub process-IsAt :
        (st : Stage) (rs : List EventRecord) (a : Aggregator)
        → IsAt st a
        → IsAt (stage_after st rs) (process encode streaming enable_isl reply rs a)
    unfolding process
    process-IsAt (running i) rs a h =
        open-IsAt (stage_after (running i) rs) a (process_records encode streaming enable_isl rs a)
          h.running_still
          (process_records-flags rs a
            ∙ ap (scan rs) (rw (h.running_still, h.seen, h.not_finalized, h.unwritten) refl)
            ∙ scan-stage rs i false [])
    process-IsAt (over i) rs a h = rw (process_records-over rs a h.shut_down) (simp h.shut_down h)
