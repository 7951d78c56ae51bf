-- ===== src/Metrics/Table/Triggers.antt =====
-- metrics_aggregator/metrics_table.py and tokenization.py: the triggers and their recorders.
use endpoints.Base.{
  ℕ, ◌||◌, Option, none, some, List, [], ◌∷◌, ◌++◌, String, leb, if◌then◌else◌, length,
}
use endpoints.Base.Int.{ℤ, sub_ℕ, pos}
use endpoints.Core.Output.{Json, TextModelOutput, PromptData, ToolCall, truthy?, calls?, nonempty}
use endpoints.Core.Output.Views.{
  to_text, text_after_first_chunk, as_message_parts, as_message_parts_after_first_chunk,
}
use endpoints.Core.Record.{EventRecord, Payload, prompt, output}
use endpoints.Metrics.Series.{record_value, Quotient}
use endpoints.Metrics.Collector.{Collector, add_tpot}
use endpoints.Metrics.Queue.{TokenizationInput, token_ids, text, message, TokenQueue, enqueue}
use endpoints.Metrics.Table.{
  isl_trigger, osl_trigger, tpot_trigger, sample_latency_trigger, ttft_trigger, chunk_delta_trigger,
  isl_count, osl_count, tpot_into, SeriesSet, SampleRow, Trigger, Recorder, Sinks,
}

-- Triggers ----------------------------------------------------------------------------------------

unfoldable pub add_value : Trigger → ℤ → SeriesSet → SeriesSet
add_value sample_latency_trigger v s = record s { sample_latency = record_value v s.sample_latency }
add_value ttft_trigger v s = record s { ttft = record_value v s.ttft }
add_value chunk_delta_trigger v s = record s { chunk_delta = record_value v s.chunk_delta }
add_value isl_trigger v s = record s { isl = record_value v s.isl }
add_value osl_trigger v s = record s { osl = record_value v s.osl }
add_value tpot_trigger v s = s

-- `TimeDeltaTrigger.fire`
unfoldable pub time_delta : Trigger → Option ℕ → ℕ → Sinks → Sinks
unfolding add_value
time_delta t none ts s = s
time_delta t (some baseline) ts s = record s { series = add_value t (sub_ℕ ts baseline) s.series }

-- `TokenTrigger.fire`: identifiers are counted at once, all else is enqueued
unfoldable pub token_fire : Trigger → Option TokenizationInput → Recorder → Sinks → Sinks
unfolding add_value
token_fire t none r s = s
token_fire t (some (token_ids ids)) r s = record s {
  series = add_value t (pos (length ids)) s.series;
}
token_fire t (some i) r s = record s { queue = push s.queue }
  where
    push : Option (TokenQueue Recorder) → Option (TokenQueue Recorder)
    push none = none
    push (some q) = some (enqueue i r q)

-- `IslTrigger._extract_tokenization_input`: identifiers, then text, then messages
unfoldable pub prompt_input : PromptData → Option TokenizationInput
prompt_input p = of_ids p.token_ids
  where
    of_messages : Option (List Json) → Option TokenizationInput
    of_messages none = none
    of_messages (some m) =
        some
          (TokenizationInput.prompt m p.tools p.chat_template_kwargs p.chat_template p.tool_choice)

    of_text : Option String → Option TokenizationInput
    of_text none = of_messages p.messages
    of_text (some s) = if nonempty s then some (text s) else of_messages p.messages

    of_ids : Option (List ℕ) → Option TokenizationInput
    of_ids (some ids) = some (token_ids ids)
    of_ids none = of_text p.text

unfoldable pub isl_input : Payload → Option TokenizationInput
unfolding prompt_input
isl_input (prompt p) = prompt_input p
isl_input _ = none

module _ (encode : List ToolCall → String) where
  -- `extract_tokenization_input` of tokenization.py
  unfoldable pub extract_tokenization_input : TextModelOutput → Option TokenizationInput
  extract_tokenization_input o =
      if truthy? o.reasoning || calls? o.tool_calls
      then some (message (as_message_parts o))
      else if nonempty (to_text encode o)
      then some (text (to_text encode o))
      else none

  unfoldable pub osl_input : Payload → Option TokenizationInput
  unfolding extract_tokenization_input
  osl_input (output o) = extract_tokenization_input o
  osl_input _ = none

  unfoldable pub tpot_of_output : TextModelOutput → Option TokenizationInput
  tpot_of_output o =
      if truthy? o.reasoning || calls? o.tool_calls
      then some (message (as_message_parts_after_first_chunk o))
      else if nonempty (text_after_first_chunk encode o)
      then some (text (text_after_first_chunk encode o))
      else none

  unfoldable pub tpot_input : Payload → Option TokenizationInput
  unfolding tpot_of_output
  tpot_input (output o) = tpot_of_output o
  tpot_input _ = none

  unfoldable pub tpot_fire : Option ℕ → Option ℕ → EventRecord → Sinks → Sinks
  unfolding token_fire tpot_input
  tpot_fire none sp ev s = s
  tpot_fire (some first) sp ev s =
      token_fire tpot_trigger (tpot_input ev.payload) (tpot_into ev.timestamp_ns first sp) s

  -- `trigger.fire(ev_rec, row, pre_change)`, where the row has its old fields still
  unfoldable pub fire : Trigger → EventRecord → SampleRow → Sinks → Sinks
  unfolding time_delta token_fire isl_input osl_input tpot_fire
  fire isl_trigger ev row s = token_fire isl_trigger (isl_input ev.payload) isl_count s
  fire osl_trigger ev row s = token_fire osl_trigger (osl_input ev.payload) osl_count s
  fire tpot_trigger ev row s = tpot_fire row.recv_first_ns row.superpass_index ev s
  fire sample_latency_trigger ev row s =
      time_delta sample_latency_trigger row.issued_ns ev.timestamp_ns s
  fire ttft_trigger ev row s = time_delta ttft_trigger row.issued_ns ev.timestamp_ns s
  fire chunk_delta_trigger ev row s =
      time_delta chunk_delta_trigger row.last_recv_ns ev.timestamp_ns s

  unfoldable pub fire_all : List Trigger → EventRecord → SampleRow → Sinks → Sinks
  unfolding fire
  fire_all [] ev row s = s
  fire_all (t ∷ ts) ev row s = fire_all ts ev row (fire t ev row s)

-- The recorders of `_make_recorder`, run with the token count. TPOT skips a count of zero, and adds to
-- the collector where there is one and the row was in a super-pass.
unfoldable pub tpot_run : ℕ → ℕ → Option ℕ → ℕ → Sinks → Sinks
tpot_run ts first sp n s = if leb n 0 then s else record s {
  series = record s.series { tpot = s.series.tpot ++ value ∷ [] };
  collector = into sp s.collector;
}
  where
    value : Quotient
    value = record { numerator = sub_ℕ ts first; denominator = n }

    into : Option ℕ → Option Collector → Option Collector
    into (some i) (some c) = some (add_tpot i value n c)
    into _ c = c

unfoldable pub run_recorder : Recorder → ℕ → Sinks → Sinks
unfolding add_value tpot_run
run_recorder isl_count n s = record s { series = add_value isl_trigger (pos n) s.series }
run_recorder osl_count n s = record s { series = add_value osl_trigger (pos n) s.series }
run_recorder (tpot_into ts first sp) n s = tpot_run ts first sp n s
