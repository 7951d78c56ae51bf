-- ===== src/Examples/Services.antt =====
-- The metrics aggregator at concrete streams.
use mathlib.Core.List.{Perm}
use endpoints.Base.{
  ℕ, ◌/◌, ◌<◌, ◌+◌, true, false, ◌≡◌, refl, some, List, [], ◌∷◌, ◌++◌, map, length, arith,
}
use endpoints.Base.Int.{ℤ, pos, negsuc}
use endpoints.Metrics.Series.{empty_sampler, new_sampler, record_all}
use endpoints.Metrics.Series.Rollups.{IsConsistent, record_all-IsConsistent}
use endpoints.Metrics.Collector.{new_collector, announce_phase, assign}
use endpoints.Metrics.Collector.Buckets.{IsBucketed}
use endpoints.Metrics.Collector.Buckets.Issues.{assign_all, announced-assign}
use endpoints.Metrics.Queue.{
  TokenizationInput, text, Reply, outcomes, counted, errored, TokenQueue, flush, flush_remaining,
}
use endpoints.Metrics.Queue.Flush.{recorders, ran, IsTight, live_flush-exactly_once, drain_complete}
use endpoints.Metrics.Aggregator.Process.{process_records, process}
use endpoints.Metrics.Aggregator.Invariant.{Books}
use endpoints.Metrics.Aggregator.Invariant.Records.{process_records-Books}
use endpoints.Metrics.Aggregator.Finish.{IsAt, IsOpen}
use endpoints.Metrics.Aggregator.Finish.Published.{process-IsAt}
use endpoints.Core.Record.Markers.{running, over, stage_after}
use endpoints.Examples.Inputs.{encode_calls, stream, new_aggregator, no_reply}

abbrev values : List ℤ
values = pos 7 ∷ negsuc 2 ∷ pos 5000 ∷ []

accepted : new_sampler 1 3600 ≡ some (empty_sampler 1 3600)
unfolding new_sampler
accepted = refl

record_all-IsConsistent_example :
    IsConsistent (record_all values (empty_sampler 1 3600))
    × ((record_all values (empty_sampler 1 3600)).raw ≡ values)
record_all-IsConsistent_example = record_all-IsConsistent 1 3600 values accepted

abbrev two_items : TokenQueue ℕ
two_items = record { items = (text "one", 10) ∷ (text "two", 20) ∷ []; pending = 2 }

abbrev half : List TokenizationInput → Reply
half _ = outcomes (counted 3 ∷ errored ∷ [])

abbrev all_counted : List TokenizationInput → Reply
all_counted _ = outcomes (counted 3 ∷ counted 4 ∷ [])

half_flushed :
    (flush half true two_items).queue ≡ record { items = (text "two", 20) ∷ []; pending = 1 }
unfolding flush
half_flushed = refl

live_flush-exactly_once_example :
    let f = flush half true two_items in
    Perm (recorders two_items.items) (ran f.recorded ++ recorders f.queue.items)
    × IsTight f.queue
    × (f.queue.pending + length f.recorded ≡ two_items.pending)
live_flush-exactly_once_example = live_flush-exactly_once half two_items refl

drain_complete_example :
    let f = flush_remaining all_counted two_items in
    (f.queue.pending ≡ 0)
    × (ran f.recorded ≡ recorders two_items.items)
    × (map (λ x. x.1) f.recorded ≡ 3 ∷ 4 ∷ [])
drain_complete_example = drain_complete all_counted two_items (3 ∷ 4 ∷ []) refl refl refl

empty-Books : Books new_aggregator
empty-Books = record {
  sound = record { rows = tt; tracking = λ e. absurd (cc) };
  balanced = record {
    completed = refl;
    open_rows = omega arith;
    issued_total = omega arith;
    completed_total = omega arith;
    failed_total = omega arith;
    finish_reasons = omega arith;
  };
}

process_records-Books_example : Books (process_records encode_calls true true stream new_aggregator)
process_records-Books_example =
    process_records-Books encode_calls true true stream new_aggregator empty-Books

nothing-IsOpen : IsOpen false new_aggregator
nothing-IsOpen = record {
  running_still = refl;
  seen = refl;
  not_finalized = refl;
  unwritten = refl;
}

process-IsAt_example :
    IsAt
      (stage_after (running false) stream)
      (process encode_calls true true no_reply stream new_aggregator)
process-IsAt_example =
    process-IsAt encode_calls true true no_reply (running false) stream new_aggregator
      nothing-IsOpen

stream_interrupted : stage_after (running false) stream ≡ over true
stream_interrupted = refl

announced-assign_example :
    let c = assign_all (1 ∷ 2 ∷ 3 ∷ []) (announce_phase 2 new_collector) in
    let (i, d) = assign 4 c in
    IsBucketed c
    × (c.superpass_size ≡ 2)
    × (i ≡ some (c.issue_counter / c.superpass_size))
    × (c.issue_counter / c.superpass_size < length d.series)
announced-assign_example = announced-assign 2 (1 ∷ 2 ∷ 3 ∷ []) 4 (omega arith)
