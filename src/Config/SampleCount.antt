-- ===== src/Config/SampleCount.antt =====
-- config/runtime_settings.py, `total_samples_to_issue`.
pub mod Least
use endpoints.Base.{
  ℕ, suc, ◌+◌, ◌-◌, ◌%◌, ◌/◌, ◌*◌, ◌≤◌, ◌<◌, Bool, true, false, ◌&&◌, not, ◌≡◌, refl, sym, ap, ◌∙◌,
  Option, none, some, ◌==◌, ==→eq, eq→==, ltb, ltb→lt, ltb→le, if◌then◌else◌, if_true, if_false,
  if_both, Bool-cases, inl, inr, arith,
}

-- `metric_target`, by its kind; its value is in the number of samples that the duration asks for
pub data MetricTarget : Type 0 where
  throughput query_latency other_target : MetricTarget

pub record RuntimeSettings : Type 0 where
  pub n_samples_to_issue : Option ℕ
  pub is_agentic : Bool
  pub n_samples_from_dataset : ℕ
  pub min_sample_count : ℕ
  pub min_issue_duration_ms : Option ℕ
  pub metric_target : Option MetricTarget

-- the count, or the exception
pub data Count : Type 0 where
  samples : ℕ → Count
  value_error not_implemented : Count

abbrev pub max : ℕ → ℕ → ℕ
max m n = if ltb m n then n else m

-- Up to the next multiple of the dataset's size.
unfoldable pub aligned : Bool → ℕ → ℕ → ℕ
aligned align n result =
    if align && ltb 0 n && not (result % n == 0) then result + (n - result % n) else result

-- `expected k d` is the rounded-up, padded number of samples for a duration of `d` ms: floating point.
module _ (expected : MetricTarget → ℕ → ℕ) where
  abbrev pub from_target : Bool → RuntimeSettings → ℕ → Option MetricTarget → Count
  from_target align s d none = value_error
  from_target align s d (some throughput) =
      samples
        (aligned align s.n_samples_from_dataset (max s.min_sample_count (expected throughput d)))
  from_target align s d (some query_latency) =
      samples
        (aligned align s.n_samples_from_dataset (max s.min_sample_count (expected query_latency d)))
  from_target align s d (some other_target) = not_implemented

  abbrev pub from_duration : Bool → RuntimeSettings → Option ℕ → Count
  from_duration align s none = samples (max s.min_sample_count s.n_samples_from_dataset)
  from_duration align s (some d) =
      if d == 0
      then samples (max s.min_sample_count s.n_samples_from_dataset)
      else from_target align s d s.metric_target

  abbrev pub from_pattern : Bool → RuntimeSettings → Option ℕ → Count
  from_pattern align s (some n) = samples n
  from_pattern align s none =
      if s.is_agentic
      then samples s.n_samples_from_dataset
      else from_duration align s s.min_issue_duration_ms

  unfoldable pub total_samples_to_issue : Bool → RuntimeSettings → Count
  unfolding aligned
  total_samples_to_issue align s = from_pattern align s s.n_samples_to_issue
