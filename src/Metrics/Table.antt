-- ===== src/Metrics/Table.antt =====
-- metrics_aggregator/metrics_table.py: sample rows, triggers and tracked blocks.
pub mod Rows
pub mod Triggers
pub mod Fields
use endpoints.Base.{
  ℕ, zero, suc, ◌+◌, ◌-◌, Bool, true, false, not, ◌&&◌, ◌||◌, Option, none, some, List, [], ◌∷◌,
  ◌++◌, String, ltb, leb, ◌==◌, if◌then◌else◌, length, get_elem?, is_some,
}
use endpoints.Base.Int.{ℤ, sub_ℕ, pos}
use endpoints.Base.Dict.{Dict, lookup, insert, erase}
use endpoints.Core.Output.{Json, TextModelOutput, PromptData, ToolCall, truthy?, calls?, nonempty}
use endpoints.Core.Output.Views.{
  MessageParts, to_text, text_after_first_chunk, as_message_parts,
  as_message_parts_after_first_chunk,
}
use endpoints.Core.Record.{
  EventRecord, SampleEventType, issued, complete, recv_first, recv_non_first, SessionEventType,
  started, start_performance_tracking, stop_performance_tracking, Payload, prompt, output,
}
use endpoints.Metrics.Series.{SeriesSampler, record_value, FloatSeries, Quotient}
use endpoints.Metrics.Collector.{Collector, add_tpot, modify_at}
use endpoints.Metrics.Queue.{TokenizationInput, token_ids, text, message, TokenQueue, enqueue}

pub data SampleField : Type 0 where
  issued_ns recv_first_ns last_recv_ns complete_ns : SampleField

-- The series that triggers write. Each is registered under the flags that register its trigger.
pub record SeriesSet : Type 0 where
  pub isl : SeriesSampler
  pub osl : SeriesSampler
  pub sample_latency : SeriesSampler
  pub ttft : SeriesSampler
  pub chunk_delta : SeriesSampler
  pub tpot : FloatSeries

-- An index of -1 is `none`.
pub record SampleRow : Type 0 where
  pub tracked_block_idx : Option ℕ
  pub superpass_index : Option ℕ
  pub issued_ns : Option ℕ
  pub recv_first_ns : Option ℕ
  pub last_recv_ns : Option ℕ
  pub complete_ns : Option ℕ

abbrev pub fresh_row : SampleRow
fresh_row = record {
  tracked_block_idx = none;
  superpass_index = none;
  issued_ns = none;
  recv_first_ns = none;
  last_recv_ns = none;
  complete_ns = none;
}

-- `last_complete_ns` starts at `start_ns` and only grows, so the duration's subtraction is exact.
pub record TrackedBlock : Type 0 where
  pub start_ns : ℕ
  pub last_complete_ns : ℕ
  pub completed_samples : ℕ

abbrev pub duration_ns : TrackedBlock → ℕ
duration_ns b = b.last_complete_ns - b.start_ns

-- The triggers that the aggregator registers, as the classes of metrics_table.py.
pub data Trigger : Type 0 where
  isl_trigger osl_trigger tpot_trigger : Trigger
  sample_latency_trigger ttft_trigger chunk_delta_trigger : Trigger

-- The closures that token triggers enqueue: what they do with the token count. `tpot_into` carries
-- the firing time, `recv_first_ns` and the super-pass of the row at that time.
pub data Recorder : Type 0 where
  isl_count osl_count : Recorder
  tpot_into : ℕ → ℕ → Option ℕ → Recorder

-- What triggers and recorders write to. The queue is `none` where no tokenizer is configured.
pub record Sinks : Type 0 where
  pub series : SeriesSet
  pub queue : Option (TokenQueue Recorder)
  pub collector : Option Collector

pub record MetricsTable : Type 0 where
  pub in_flight : Dict SampleRow
  pub is_tracking : Bool
  pub session_started_ns : Option ℕ
  pub tracked_blocks : List TrackedBlock
  pub loadgen_max_issued_ns : Option ℕ
  pub loadgen_window_end_ns : Option ℕ
  pub loadgen_window_start_ns : Option ℕ

abbrev pub empty_table : MetricsTable
empty_table = record {
  in_flight = [];
  is_tracking = false;
  session_started_ns = none;
  tracked_blocks = [];
  loadgen_max_issued_ns = none;
  loadgen_window_end_ns = none;
  loadgen_window_start_ns = none;
}

abbrev pub get_field : SampleField → SampleRow → Option ℕ
get_field issued_ns r = r.issued_ns
get_field recv_first_ns r = r.recv_first_ns
get_field last_recv_ns r = r.last_recv_ns
get_field complete_ns r = r.complete_ns

abbrev pub set_row : SampleField → ℕ → SampleRow → SampleRow
set_row issued_ns v r = record r { issued_ns = some v }
set_row recv_first_ns v r = record r { recv_first_ns = some v }
set_row last_recv_ns v r = record r { last_recv_ns = some v }
set_row complete_ns v r = record r { complete_ns = some v }

-- `handle_session_event`
unfoldable pub handle_session_event : SessionEventType → ℕ → MetricsTable → MetricsTable
handle_session_event started ts t = record t { session_started_ns = some ts }
handle_session_event start_performance_tracking ts t = if t.is_tracking then t else record t {
  is_tracking = true;
  tracked_blocks =
      t.tracked_blocks
      ++ record { start_ns = ts; last_complete_ns = ts; completed_samples = 0 } ∷ [];
}
handle_session_event stop_performance_tracking ts t = record t { is_tracking = false }
handle_session_event _ ts t = t

unfoldable pub total_duration : List TrackedBlock → ℕ
total_duration [] = 0
total_duration (b ∷ bs) = duration_ns b + total_duration bs

abbrev pub total_completed : List TrackedBlock → ℕ
total_completed [] = 0
total_completed (b ∷ bs) = b.completed_samples + total_completed bs

-- `max(0, end - start)`, or 0 while either end is missing
unfoldable pub total_loadgen_window_ns : MetricsTable → ℕ
total_loadgen_window_ns t = go t.loadgen_window_end_ns t.loadgen_window_start_ns
  where
    go : Option ℕ → Option ℕ → ℕ
    go (some e) (some s) = e - s
    go (some _) none = 0
    go none _ = 0
