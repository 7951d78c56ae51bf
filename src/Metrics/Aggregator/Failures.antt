-- ===== src/Metrics/Aggregator/Failures.antt =====
-- aggregator.py: how an ERROR and the COMPLETE after it are counted.
use endpoints.Base.{
  ℕ, ◌+◌, ◌-◌, Bool, true, false, ◌≡◌, refl, sym, ◌∙◌, ap, Option, none, some, List, String, arith,
  if_true, if_false, ltb, Bool-cases, Option-cases, inl, inr,
}
use mathlib.Core.Path.{subst}
use endpoints.Base.Dict.{contains}
use endpoints.Core.Output.{ToolCall, nonempty}
use endpoints.Core.Record.{EventRecord, of_error, of_sample, ErrorEventType, complete}
use endpoints.Metrics.Counters.{Counters, increment, set_counter, count_reason}
use endpoints.Metrics.Table.{MetricsTable}
use endpoints.Metrics.Aggregator.{Aggregator, note_elapsed, on_error, count_complete}
use endpoints.Metrics.Aggregator.Process.{on_sample, dispatch, process_record}

-- What decides how the next event of a sample is counted, and the two counts.
abbrev View : Type 0
View = Bool × MetricsTable × ℕ × ℕ

abbrev pub view : Aggregator → View
view a = (a.shutdown_received, a.table, a.counters.tracked_failed, a.counters.tracked_completed)

note_elapsed-view : (ts : ℕ) (a : Aggregator) → view (note_elapsed ts a) ≡ view a
unfolding note_elapsed set_counter
note_elapsed-view ts a = elim (Option-cases a.session_start_ns) [
  | inl unset ↦ simp unset refl
  | inr (begin, e) ↦ simp e (elim (Bool-cases (ltb a.counters.total_duration (ts - begin))) [
    | inl longer ↦ simp longer refl
    | inr shorter ↦ simp shorter refl
  ])
]

-- a sample whose row is there
abbrev pub IsTracked : String → View → Type 0
IsTracked uuid v = (v.0 ≡ false) × (nonempty uuid ≡ true) × (contains uuid v.1.in_flight ≡ true)

abbrev failed_once : View → View
failed_once (shut, t, f, c) = (shut, t, f + 1, c)

on_error-view :
    (r : EventRecord) (a : Aggregator)
    → IsTracked r.sample_uuid (view a)
    → view (on_error r a) ≡ failed_once (view a)
unfolding on_error increment
on_error-view r a (_, named, there) = rw (named, there) refl

-- the failures and the completions counted
abbrev pub counts : Counters → ℕ × ℕ
counts c = (c.tracked_failed, c.tracked_completed)

abbrev completed_once : ℕ × ℕ → ℕ × ℕ
completed_once (f, c) = (f, c + 1)

count_complete-counts :
    (reason : Option String) (c : Counters)
    → counts (count_complete true reason c) ≡ completed_once (counts c)
unfolding count_complete increment count_reason
count_complete-counts none c = refl
count_complete-counts (some s) c = ground arith

module _ (encode : List ToolCall → String) (streaming enable_isl : Bool) where
  IsTracked-later :
      (uuid : String) (ts : ℕ) (a : Aggregator)
      → IsTracked uuid (view a)
      → IsTracked uuid (view (note_elapsed ts a))
  IsTracked-later uuid ts a k = subst (IsTracked uuid) (sym (note_elapsed-view ts a)) k

  -- An ERROR of a sample whose row is there is a tracked failure, and nothing else changes.
  pub error_counts :
      (e : ErrorEventType) (r : EventRecord) (a : Aggregator)
      → r.event_type ≡ of_error e
      → IsTracked r.sample_uuid (view a)
      → view (process_record encode streaming enable_isl r a) ≡ failed_once (view a)
  unfolding process_record dispatch
  error_counts e r a t k =
      let b = note_elapsed r.timestamp_ns a in
      ap view (if_false a.shutdown_received a _ k.0)
      ∙ ap (λ e. view (dispatch encode streaming enable_isl e r b)) t
      ∙ on_error-view r b (IsTracked-later r.sample_uuid r.timestamp_ns a k)
      ∙ ap failed_once (note_elapsed-view r.timestamp_ns a)

  on_complete-counts :
      (r : EventRecord) (a : Aggregator)
      → contains r.sample_uuid a.table.in_flight ≡ true
      → counts (on_sample encode streaming enable_isl complete r a).counters
        ≡ completed_once (counts a.counters)
  unfolding on_sample
  on_complete-counts r a k =
      ap (λ b. counts (count_complete b r.finish_reason a.counters)) k
      ∙ count_complete-counts r.finish_reason a.counters

  -- A COMPLETE of a sample whose row is there is a tracked completion and no failure.
  pub complete_counts :
      (r : EventRecord) (a : Aggregator)
      → r.event_type ≡ of_sample complete
      → IsTracked r.sample_uuid (view a)
      → counts (process_record encode streaming enable_isl r a).counters
        ≡ completed_once (counts a.counters)
  unfolding process_record dispatch
  complete_counts r a t k =
      let b = note_elapsed r.timestamp_ns a in
      let l = IsTracked-later r.sample_uuid r.timestamp_ns a k in
      ap (λ (x : Aggregator). counts x.counters) (if_false a.shutdown_received a _ k.0)
      ∙ ap (λ e. counts (dispatch encode streaming enable_isl e r b).counters) t
      ∙ ap (λ (x : Aggregator). counts x.counters) (if_true (nonempty r.sample_uuid) _ b l.1)
      ∙ on_complete-counts r b l.2
      ∙ ap (λ (v : View). completed_once (v.2, v.3)) (note_elapsed-view r.timestamp_ns a)
