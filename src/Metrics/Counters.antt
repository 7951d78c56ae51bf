-- ===== src/Metrics/Counters.antt =====
-- metrics_aggregator/aggregator.py: the counters that the aggregator registers. The registry keeps
-- them in a dict by name; every name is registered once, from the enum, so a counter is a field here.
use endpoints.Base.{ℕ, ◌+◌, Option, none, some, String, str_eq, if◌then◌else◌}

pub data MetricCounterKey : Type 0 where
  total_samples_issued total_samples_completed total_samples_failed : MetricCounterKey
  tracked_samples_issued tracked_samples_completed tracked_samples_failed : MetricCounterKey
  finish_reason_stop finish_reason_length finish_reason_tool_calls : MetricCounterKey
  finish_reason_content_filter finish_reason_function_call finish_reason_other : MetricCounterKey
  tracked_duration_ns legacy_loadgen_window_duration_ns total_duration_ns : MetricCounterKey

pub record Counters : Type 0 where
  pub total_issued : ℕ
  pub total_completed : ℕ
  pub total_failed : ℕ
  pub tracked_issued : ℕ
  pub tracked_completed : ℕ
  pub tracked_failed : ℕ
  pub reason_stop : ℕ
  pub reason_length : ℕ
  pub reason_tool_calls : ℕ
  pub reason_content_filter : ℕ
  pub reason_function_call : ℕ
  pub reason_other : ℕ
  pub tracked_duration : ℕ
  pub legacy_loadgen_window : ℕ
  pub total_duration : ℕ

abbrev pub no_counts : Counters
no_counts = record {
  total_issued = 0;
  total_completed = 0;
  total_failed = 0;
  tracked_issued = 0;
  tracked_completed = 0;
  tracked_failed = 0;
  reason_stop = 0;
  reason_length = 0;
  reason_tool_calls = 0;
  reason_content_filter = 0;
  reason_function_call = 0;
  reason_other = 0;
  tracked_duration = 0;
  legacy_loadgen_window = 0;
  total_duration = 0;
}

-- `CounterSampler.set`, and `increment` by it
unfoldable pub adjust : MetricCounterKey → (ℕ → ℕ) → Counters → Counters
adjust total_samples_issued f c = record c { total_issued = f c.total_issued }
adjust total_samples_completed f c = record c { total_completed = f c.total_completed }
adjust total_samples_failed f c = record c { total_failed = f c.total_failed }
adjust tracked_samples_issued f c = record c { tracked_issued = f c.tracked_issued }
adjust tracked_samples_completed f c = record c { tracked_completed = f c.tracked_completed }
adjust tracked_samples_failed f c = record c { tracked_failed = f c.tracked_failed }
adjust finish_reason_stop f c = record c { reason_stop = f c.reason_stop }
adjust finish_reason_length f c = record c { reason_length = f c.reason_length }
adjust finish_reason_tool_calls f c = record c { reason_tool_calls = f c.reason_tool_calls }
adjust finish_reason_content_filter f c = record c {
  reason_content_filter = f c.reason_content_filter;
}
adjust finish_reason_function_call f c = record c {
  reason_function_call = f c.reason_function_call;
}
adjust finish_reason_other f c = record c { reason_other = f c.reason_other }
adjust tracked_duration_ns f c = record c { tracked_duration = f c.tracked_duration }
adjust legacy_loadgen_window_duration_ns f c = record c {
  legacy_loadgen_window = f c.legacy_loadgen_window;
}
adjust total_duration_ns f c = record c { total_duration = f c.total_duration }

unfoldable pub increment : MetricCounterKey → Counters → Counters
unfolding adjust
increment k c = adjust k (λ n. n + 1) c

unfoldable pub set_counter : MetricCounterKey → ℕ → Counters → Counters
unfolding adjust
set_counter k v c = adjust k (λ n. v) c

-- `_FINISH_REASON_COUNTERS.get(reason, TRACKED_FINISH_REASON_OTHER)`
unfoldable pub reason_key : String → MetricCounterKey
reason_key r =
    if str_eq r "stop"
    then finish_reason_stop
    else if str_eq r "length"
    then finish_reason_length
    else if str_eq r "tool_calls"
    then finish_reason_tool_calls
    else if str_eq r "content_filter"
    then finish_reason_content_filter
    else if str_eq r "function_call"
    then finish_reason_function_call
    else finish_reason_other

-- `if isinstance(record.finish_reason, str): registry.increment(counter.value)`
unfoldable pub count_reason : Option String → Counters → Counters
unfolding increment reason_key
count_reason none c = c
count_reason (some r) c = increment (reason_key r) c
