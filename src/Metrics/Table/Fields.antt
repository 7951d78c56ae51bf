-- ===== src/Metrics/Table/Fields.antt =====
-- metrics_aggregator/metrics_table.py: `set_field`.
use endpoints.Base.{
  ℕ, zero, suc, ◌+◌, Bool, true, false, Option, none, some, List, String, ltb, if◌then◌else◌,
  length,
}
use endpoints.Base.Dict.{lookup, insert, erase}
use endpoints.Core.Output.{ToolCall}
use endpoints.Core.Record.{EventRecord, SampleEventType, issued, complete}
use endpoints.Metrics.Collector.{modify_at}
use endpoints.Metrics.Table.{
  SampleField, SampleRow, fresh_row, TrackedBlock, Trigger, Sinks, MetricsTable, set_row,
}
use endpoints.Metrics.Table.Triggers.{fire_all}

-- Field updates -----------------------------------------------------------------------------------

-- `block.last_complete_ns = max(…)`, `block.completed_samples += 1`
abbrev pub extend_block : ℕ → TrackedBlock → TrackedBlock
extend_block ts b = record b {
  last_complete_ns = if ltb b.last_complete_ns ts then ts else b.last_complete_ns;
  completed_samples = b.completed_samples + 1;
}

-- `0 <= idx < len(self.tracked_blocks)`
abbrev pub extend_blocks : Option ℕ → ℕ → List TrackedBlock → List TrackedBlock
extend_blocks none ts bs = bs
extend_blocks (some i) ts bs = modify_at i (extend_block ts) bs

-- `row.issued_ns is not None and row.issued_ns > self._loadgen_max_issued_ns`
abbrev pub issued_later : Option ℕ → Option ℕ → Bool
issued_later none _ = false
issued_later (some i) none = true
issued_later (some i) (some m) = ltb m i

-- `_update_tracked_block`
unfoldable pub update_tracked_block : SampleRow → ℕ → MetricsTable → MetricsTable
update_tracked_block row ts t =
    let u = record t { tracked_blocks = extend_blocks row.tracked_block_idx ts t.tracked_blocks } in
    if issued_later row.issued_ns t.loadgen_max_issued_ns
    then record u { loadgen_max_issued_ns = row.issued_ns; loadgen_window_end_ns = some ts }
    else u

-- `_create_row`: an existing row is kept
abbrev pub row_or_fresh : Option SampleRow → SampleRow
row_or_fresh none = fresh_row
row_or_fresh (some r) = r

abbrev pub or_else {ℓ} : {A : Type ℓ} → Option A → A → Option A
or_else none a = some a
or_else (some b) a = some b

-- `len(self.tracked_blocks) - 1`
abbrev pub last_index : ℕ → Option ℕ
last_index zero = none
last_index (suc n) = some n

module _ (encode : List ToolCall → String) (triggers : SampleField → List Trigger) where
  -- the part of `set_field` after the row is found
  unfoldable pub finish_field :
      SampleEventType
      → String
      → SampleField
      → ℕ
      → EventRecord
      → SampleRow
      → MetricsTable
      → Sinks
      → MetricsTable × Sinks
  unfolding fire_all update_tracked_block
  finish_field complete uuid f v ev row t s =
      let written = set_row f v row in
      let u = update_tracked_block written ev.timestamp_ns t in
      (record u { in_flight = erase uuid u.in_flight }, fire_all encode (triggers f) ev row s)
  finish_field _ uuid f v ev row t s = (
    record t { in_flight = insert uuid (set_row f v row) t.in_flight },
    fire_all encode (triggers f) ev row s,
  )

  unfoldable pub with_row :
      SampleEventType
      → String
      → SampleField
      → ℕ
      → EventRecord
      → Option SampleRow
      → MetricsTable
      → Sinks
      → MetricsTable × Sinks
  unfolding finish_field
  with_row e uuid f v ev none t s = (t, s)
  with_row e uuid f v ev (some row) t s = finish_field e uuid f v ev row t s

  -- `set_field(sample_uuid, field_name, value, ev_rec)`, where `e` is the type of `ev_rec`
  unfoldable pub set_field :
      SampleEventType
      → String
      → SampleField
      → ℕ
      → EventRecord
      → MetricsTable
      → Sinks
      → MetricsTable × Sinks
  unfolding with_row
  set_field issued uuid f v ev t s =
      if t.is_tracking
      then (let row = record (row_or_fresh (lookup uuid t.in_flight)) {
        tracked_block_idx = last_index (length t.tracked_blocks);
      } in
          finish_field issued uuid f v ev row
            (record t { loadgen_window_start_ns = or_else t.loadgen_window_start_ns v }) s)
      else (t, s)
  set_field e uuid f v ev t s = with_row e uuid f v ev (lookup uuid t.in_flight) t s
