-- ===== src/Metrics/Aggregator/Finish.antt =====
-- aggregator.py and publisher.py: the end of a session, from the markers in the event stream to the one
-- terminal snapshot.
pub mod Published
use endpoints.Base.{
  ℕ, ◌-◌, ◌+◌, Bool, true, false, not, ◌&&◌, ◌||◌, ◌≡◌, refl, sym, ◌∙◌, ap, Option, none, some,
  List, [], ◌∷◌, ◌++◌, String, if◌then◌else◌, is_some, ltb, Bool-cases, Option-cases, if_true,
  if_false, inl, inr,
}
use endpoints.Base.Dict.{lookup}
use endpoints.Core.Output.{ToolCall, nonempty}
use endpoints.Core.Record.{
  EventRecord, EventType, of_session, of_error, of_sample, SessionEventType, started, ended,
  interrupted, phase_start, start_performance_tracking, stop_performance_tracking, stop_loadgen,
  SampleEventType, issued, complete, recv_first, recv_non_first, Payload, phase,
}
use endpoints.Core.Record.Markers.{
  is_ended, is_interrupted, ended_alone, Stage, running, over, stage_after,
}
use endpoints.Metrics.Counters
use endpoints.Metrics.Counters.{increment}
use endpoints.Metrics.Collector.{Collector}
use endpoints.Metrics.Queue.{TokenizationInput, Reply}
use endpoints.Metrics.Table.{SampleRow, issued_ns}
use endpoints.Metrics.Publisher.{Snapshot, Publisher, start, publish_final, close, terminal_state}
use endpoints.Metrics.Aggregator.{
  Aggregator, note_elapsed, on_phase_start, on_started, on_session, on_error, bucket_issue,
  count_issued, is_performance, write_windows,
}
use endpoints.Metrics.Aggregator.Process.{
  on_sample, write_field, dispatch, process_record, process_records, finish, process, drain,
  steady_state_of,
}

-- What decides the end of the session: whether ENDED and INTERRUPTED were seen, and what was published.
abbrev pub Flags : Type 0
Flags = Bool × Bool × Bool × List Snapshot

abbrev pub flags : Aggregator → Flags
flags a = (a.shutdown_received, a.interrupted, a.publisher.finalized, a.publisher.written)

pub note_elapsed-flags : (ts : ℕ) (a : Aggregator) → flags (note_elapsed ts a) ≡ flags a
unfolding note_elapsed
note_elapsed-flags ts a = elim (Option-cases a.session_start_ns) [
  | inl unset ↦ simp unset refl
  | inr (begin, e) ↦ simp e (elim (Bool-cases (ltb a.counters.total_duration (ts - begin))) [
    | inl longer ↦ simp longer refl
    | inr shorter ↦ simp shorter refl
  ])
]

pub start-keeps :
    (p : Publisher) → ((start p).finalized ≡ p.finalized) × ((start p).written ≡ p.written)
unfolding start
start-keeps p = elim (Bool-cases p.ticking) [
  | inl on ↦ simp on (refl, refl)
  | inr off ↦ simp off (refl, refl)
]

pub on_started-flags : (ts : ℕ) (a : Aggregator) → flags (on_started ts a) ≡ flags a
unfolding on_started
on_started-flags ts a = elim (Option-cases a.session_start_ns) [
  | inl unset ↦ simp unset (rw ((start-keeps a.publisher).0, (start-keeps a.publisher).1) refl)
  | inr (begin, e) ↦ simp e refl
]

pub on_phase_start-flags : (p : Payload) (a : Aggregator) → flags (on_phase_start p a) ≡ flags a
unfolding on_phase_start
on_phase_start-flags (phase p) a = elim (Bool-cases (is_performance p.phase_type)) [
  | inl yes_it_is ↦ simp yes_it_is refl
  | inr not_so ↦ simp not_so refl
]
on_phase_start-flags _ a = refl

pub bucket_issue-flags :
    (uuid : String) (ts : ℕ) (row : SampleRow) (a : Aggregator)
    → flags (bucket_issue uuid ts row a) ≡ flags a
unfolding bucket_issue
bucket_issue-flags uuid ts row a = elim (Option-cases a.sinks.collector) [
  | inl off ↦ simp off refl
  | inr (c, on) ↦ simp on (elim (Bool-cases a.table.is_tracking) [
    | inl tracked ↦ simp tracked refl
    | inr untracked ↦ simp untracked refl
  ])
]

pub count_issued-flags :
    (uuid : String) (ts : ℕ) (o : Option SampleRow) (a : Aggregator)
    → flags (count_issued uuid ts o a) ≡ flags a
unfolding count_issued
count_issued-flags uuid ts none a = refl
count_issued-flags uuid ts (some row) a =
    bucket_issue-flags uuid ts row
      (record a { counters = increment Counters.tracked_samples_issued a.counters })

abbrev pub marked : EventType → Flags → Flags
marked e (s, i, f, w) = (is_ended e || s, is_interrupted e || i, f, w)

pub on_session-flags :
    (e : SessionEventType) (r : EventRecord) (a : Aggregator)
    → flags (on_session e r a) ≡ marked (of_session e) (flags a)
unfolding on_session
on_session-flags ended r a = refl
on_session-flags interrupted r a = refl
on_session-flags phase_start r a = on_phase_start-flags r.payload a
on_session-flags started r a = on_started-flags r.timestamp_ns a
on_session-flags stop_performance_tracking r a = refl
on_session-flags start_performance_tracking r a = refl
on_session-flags stop_loadgen r a = refl

-- A session that is running: nothing was published.
pub record IsOpen (stopped : Bool) (a : Aggregator) : Type 0 where
  pub running_still : a.shutdown_received ≡ false
  pub seen : a.interrupted ≡ stopped
  pub not_finalized : a.publisher.finalized ≡ false
  pub unwritten : a.publisher.written ≡ []

-- A session that is over: exactly one snapshot was published, in the terminal state for `stopped`.
pub record IsOver (stopped : Bool) (a : Aggregator) : Type 0 where
  pub shut_down : a.shutdown_received ≡ true
  pub snapshot : Snapshot
  pub written_once : a.publisher.written ≡ snapshot ∷ []
  pub terminal : snapshot.state ≡ terminal_state stopped

abbrev pub IsAt : Stage → Aggregator → Type 0
IsAt (running stopped) a = IsOpen stopped a
IsAt (over stopped) a = IsOver stopped a
