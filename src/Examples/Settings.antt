-- ===== src/Examples/Settings.antt =====
-- config/runtime_settings.py and sglang/accumulator.py at concrete inputs.
use endpoints.Base.{ℕ, false, true, ◌≡◌, refl, none, some, List, [], ◌∷◌, arith}
use endpoints.Config.SampleCount.{
  MetricTarget, throughput, RuntimeSettings, samples, value_error, max, total_samples_to_issue,
}
use endpoints.Config.SampleCount.Least.{IsLeastMultiple, total_samples_to_issue-least}
use endpoints.Client.Generate.{new_sglang, add_deltas, get_generated}
use endpoints.Client.Generate.Deltas.{
  Growth, deltas, grown, grown_tokens, chunk_texts, add_deltas-grown,
}

-- ten samples a second for three seconds, over a dataset of 8
abbrev settings : RuntimeSettings
settings = record {
  n_samples_to_issue = none;
  is_agentic = false;
  n_samples_from_dataset = 8;
  min_sample_count = 5;
  min_issue_duration_ms = some 3000;
  metric_target = some throughput;
}

abbrev at_rate : MetricTarget → ℕ → ℕ
at_rate t d = 30

total_samples_to_issue-least_example :
    (r : ℕ) × (total_samples_to_issue at_rate true settings ≡ samples r)
    × IsLeastMultiple 8 (max 5 (at_rate throughput 3000)) r
total_samples_to_issue-least_example =
    total_samples_to_issue-least at_rate settings 2999 throughput refl refl refl refl refl
      (omega arith)

-- the multiple of 8 after 30
thirty_two : total_samples_to_issue at_rate true settings ≡ samples 32
unfolding total_samples_to_issue
thirty_two = refl

no_target :
    total_samples_to_issue at_rate true (record settings { metric_target = none }) ≡ value_error
unfolding total_samples_to_issue
no_target = refl

-- two events, of which the second adds no text
abbrev growths : List Growth
growths =
    record { added = 72 ∷ 105 ∷ []; tokens = 7 ∷ []; more = 0; retracts = false }
    ∷ record { added = []; tokens = 8 ∷ []; more = 0; retracts = true }
    ∷ record { added = 33 ∷ []; tokens = 9 ∷ []; more = 0; retracts = false }
    ∷ []

add_deltas-grown_example :
    let r = add_deltas (deltas [] 0 growths) (new_sglang "a" true) in
    (chunk_texts r.0 ≡ grown growths)
    × ((get_generated r.1).output ≡ grown growths)
    × ((get_generated r.1).token_ids ≡ grown_tokens growths)
add_deltas-grown_example = add_deltas-grown growths "a"
