-- ===== src/Examples/Outputs.antt =====
-- core/types.py and core/record.py at concrete values.
use Prim.Native.String.{len, ◌++◌ as str_append}
use endpoints.Base.{arith, ℕ, ◌≤◌, ◌≡◌, refl, none, some, String, List, [], ◌∷◌}
use endpoints.Core.Output.{join, merge_tool_calls, ToolCall, chunked}
use endpoints.Core.Output.Views.{
  to_text, text_after_first_chunk, as_message_parts_after_first_chunk, encoded,
}
use endpoints.Core.Output.Parts.{
  or_empty, first_chunk, text_after-eq-message_parts_after, to_text_split,
}
use endpoints.Core.Output.Merging.{Increasing, arguments_at, streamed_arguments, flatten}
use endpoints.Core.Output.Merging.Streams.{merge_tool_calls-arguments}
use endpoints.Client.Accumulator.Final.{text_output-StartsWithText}
use endpoints.Core.Record.{
  of_session, start_performance_tracking, topic, from_topic, topic_frame_size,
}
use endpoints.Core.Record.Topics.{from_topic-topic}
use endpoints.Examples.Inputs.{encode_calls, streamed}

streamed_text : to_text encode_calls streamed ≡ "thinkingHello[call]"
unfolding to_text join merge_tool_calls
streamed_text = refl

streamed_after : text_after_first_chunk encode_calls streamed ≡ "ingHello[call]"
unfolding text_after_first_chunk join merge_tool_calls
streamed_after = refl

to_text_split_example :
    to_text encode_calls streamed
    ≡ str_append (first_chunk streamed) (text_after_first_chunk encode_calls streamed)
to_text_split_example = to_text_split encode_calls streamed (
    text_output-StartsWithText ("Hel" ∷ "lo" ∷ []) ("think" ∷ "ing" ∷ []) streamed.tool_calls
      (omega arith))

text_after-eq-message_parts_after_example : text_after_first_chunk encode_calls streamed ≡ (
    let p = as_message_parts_after_first_chunk streamed in
    str_append
      (or_empty p.reasoning)
      (str_append p.content (join (encoded encode_calls p.tool_calls))))
text_after-eq-message_parts_after_example = text_after-eq-message_parts_after encode_calls streamed

from_topic-topic_example :
    (from_topic (topic (of_session start_performance_tracking))
      ≡ some (of_session start_performance_tracking))
    × (len (topic (of_session start_performance_tracking)) ≤ topic_frame_size)
from_topic-topic_example = from_topic-topic (of_session start_performance_tracking)

unknown_topic : from_topic "session.paused" ≡ none
unfolding from_topic
unknown_topic = refl

-- two calls whose parts come interleaved, the second call first
abbrev part : ℕ → String → ToolCall
part i s = record { index = i; id = none; type = none; name = none; arguments = some s }

abbrev call_parts : List (List ToolCall)
call_parts = (part 0 "{1" ∷ part 1 "b]" ∷ []) ∷ (part 0 "}" ∷ []) ∷ []

merged_arguments : streamed_arguments 1 (flatten ((part 1 "[a" ∷ []) ∷ call_parts)) ≡ "[ab]"
merged_arguments = refl

merge_tool_calls-arguments_example :
    (m : List ToolCall) × (merge_tool_calls (some (chunked ((part 1 "[a" ∷ []) ∷ call_parts)))
      ≡ some m)
    × Increasing 0 m
    × (arguments_at 1 m ≡ streamed_arguments 1 (flatten ((part 1 "[a" ∷ []) ∷ call_parts)))
merge_tool_calls-arguments_example = merge_tool_calls-arguments 1 (part 1 "[a" ∷ []) call_parts
