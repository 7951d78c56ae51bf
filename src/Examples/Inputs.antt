-- ===== src/Examples/Inputs.antt =====
-- The inputs that the tests share: a stream of events, an aggregator, and a session's script.
use endpoints.Base.{ℕ, true, false, Option, none, some, List, [], ◌∷◌, String}
use endpoints.Base.Dict.{Dict}
use endpoints.Core.Output.{one, Json, text, ToolCall, chunked, chunks, TextModelOutput}
use endpoints.Core.Record.{
  EventRecord, EventType, of_session, of_error, of_sample, started, ended, interrupted,
  start_performance_tracking, generic, issued, complete, nothing, performance,
}
use endpoints.Metrics.Series.{SeriesSampler, empty_sampler}
use endpoints.Metrics.Counters.{no_counts}
use endpoints.Metrics.Collector.{new_collector}
use endpoints.Metrics.Table.{fresh_row, empty_table}
use endpoints.Metrics.Queue.{TokenizationInput, Reply, raised}
use endpoints.Metrics.Publisher.{new_publisher, initialize}
use endpoints.Metrics.Aggregator.{Aggregator}
use endpoints.LoadGen.State.{StopCheck}
use endpoints.LoadGen.Issuer.{Call}
use endpoints.LoadGen.Responses.{QueryResult, result}
use endpoints.LoadGen.Run.{Step, issue_sample, respond, close_transport, run_timer, PhaseScript}

abbrev pub tool_call : ToolCall
tool_call = record {
  index = 0;
  id = some "call_1";
  type = some "function";
  name = some "search";
  arguments = some "{}";
}

-- a stand-in for the JSON encoder
abbrev pub encode_calls : List ToolCall → String
encode_calls [] = "[]"
encode_calls (_ ∷ _) = "[call]"

-- a streamed answer that reasons first, and ends in a tool call
abbrev pub streamed : TextModelOutput
streamed = record {
  output = one "Hello";
  reasoning = some (chunks ("think" ∷ "ing" ∷ []));
  tool_calls = some (chunked ((tool_call ∷ []) ∷ []));
}

abbrev pub event : EventType → ℕ → String → EventRecord
event e ts uuid = record {
  event_type = e;
  timestamp_ns = ts;
  sample_uuid = uuid;
  conversation_id = "";
  turn = none;
  payload = nothing;
  finish_reason = none;
  worker_id = none;
}

-- one sample that fails and one that ends well, in a session that is then interrupted
abbrev pub stream : List EventRecord
stream =
    event (of_session started) 1 ""
    ∷ event (of_session start_performance_tracking) 2 ""
    ∷ event (of_sample issued) 3 "a"
    ∷ event (of_sample issued) 4 "b"
    ∷ event (of_error generic) 7 "a"
    ∷ event (of_sample complete) 7 "a"
    ∷ event (of_sample complete) 9 "b"
    ∷ event (of_session interrupted) 10 ""
    ∷ event (of_session ended) 11 ""
    ∷ []

abbrev pub sampler : SeriesSampler
sampler = empty_sampler 1 3600

abbrev pub new_aggregator : Aggregator
new_aggregator = record {
  table = empty_table;
  sinks = record {
    series = record {
      isl = sampler;
      osl = sampler;
      sample_latency = sampler;
      ttft = sampler;
      chunk_delta = sampler;
      tpot = [];
    };
    queue = none;
    collector = some new_collector;
  };
  counters = no_counts;
  publisher = new_publisher;
  session_start_ns = none;
  session_state = initialize;
  interrupted = false;
  shutdown_received = false;
}

-- the aggregator while sample "a" is in flight
abbrev pub busy_aggregator : Aggregator
busy_aggregator = record new_aggregator {
  table = record empty_table {
    in_flight = ("a", record fresh_row { issued_ns = some 3; tracked_block_idx = some 0 }) ∷ [];
    is_tracking = true;
    tracked_blocks = record { start_ns = 2; last_complete_ns = 2; completed_samples = 0 } ∷ [];
  };
}

abbrev pub no_reply : List TokenizationInput → Reply
no_reply _ = raised

-- a dataset of prompts
abbrev pub prompt_sample : ℕ → Option (Dict Json)
prompt_sample i = some (("prompt", text "hello") ∷ [])

abbrev pub call : String → Call
call id = record {
  sample_index = 0;
  data_override = none;
  conversation_id = "";
  turn = none;
  query_id = id;
  now = 5;
  ts = 5;
  started_ts = 6;
}

abbrev pub failed_result : QueryResult
failed_result = record {
  id = "a";
  response_output = none;
  error = some (record { error_type = "timeout"; error_message = "no answer" });
  completed_at = none;
  finish_reason = none;
  worker_id = none;
}

abbrev pub two_samples : StopCheck
two_samples = record {
  phase_start_ns = 0;
  max_duration_ns = 0;
  total_samples = 2;
  counts_samples = true;
}

-- two samples are issued and a third is refused; one result comes, and then the transport closes
abbrev pub steps : List Step
steps =
    issue_sample (call "a")
    ∷ issue_sample (call "b")
    ∷ issue_sample (call "c")
    ∷ respond (result failed_result) 7
    ∷ run_timer 20
    ∷ close_transport
    ∷ []

abbrev pub script : PhaseScript
script = record {
  phase_type = performance;
  drain_after = true;
  has_drain_timeout = false;
  num_turns = 2;
  num_trajectories = 0;
  check = two_samples;
  routing_headers = [];
  start_ts = 2;
  end_ts = 30;
  during = steps;
  draining = [];
}
