-- ===== src/Client/Accumulator.antt =====
-- openai/accumulator.py and openai/types.py: a stream's deltas become chunks and a final result.

pub mod Final
pub mod Flags
use endpoints.Base.{
  Bool, true, false, ◌||◌, ◌&&◌, not, Option, none, some, List, [], ◌∷◌, ◌++◌, String,
  if◌then◌else◌,
}
use endpoints.Core.Output.{
  ToolCall, ToolCalls, chunked, OutputElem, one, chunks, TextModelOutput, nonempty, join,
}

-- `SSEDelta`, without its role, which nothing reads
pub record SseDelta : Type 0 where
  pub content : Option String
  pub reasoning_content : Option String
  pub reasoning : Option String
  pub tool_calls : Option (List ToolCall)

pub record SseChoice : Type 0 where
  pub delta : Option SseDelta
  pub finish_reason : Option String

-- `StreamChunk`, with the one entry of its metadata that is set
pub record StreamChunk : Type 0 where
  pub id : String
  pub response_chunk : String
  pub first_chunk : Bool

-- The `QueryResult` of a finished stream, with its metadata.
pub record FinalResult : Type 0 where
  pub id : String
  pub response_output : TextModelOutput
  pub first_chunk : Bool
  pub finish_reason : Option String

-- `OpenAISSEAccumulator`
pub record Accumulator : Type 0 where
  pub output_chunks : List String
  pub reasoning_chunks : List String
  pub tool_call_chunks : List (List ToolCall)
  pub finish_reason : Option String
  pub first_chunk_sent : Bool
  pub query_id : String
  pub stream_all_chunks : Bool

abbrev pub new_accumulator : String → Bool → Accumulator
new_accumulator query_id stream_all_chunks = record {
  output_chunks = [];
  reasoning_chunks = [];
  tool_call_chunks = [];
  finish_reason = none;
  first_chunk_sent = false;
  query_id = query_id;
  stream_all_chunks = stream_all_chunks;
}

-- Python's truth of an optional text, and `a or b`.
abbrev pub given : Option String → Bool
given none = false
given (some s) = nonempty s

abbrev pub or_else : Option String → Option String → Option String
or_else a b = if given a then a else b

abbrev pub text_of : Option String → String
text_of none = ""
text_of (some s) = s

abbrev pub has_calls : Option (List ToolCall) → Bool
has_calls none = false
has_calls (some []) = false
has_calls (some (_ ∷ _)) = true

-- the end of `add_chunk`, for a text that is there
unfoldable pub emit : String → Accumulator → Option StreamChunk × Accumulator
emit text a =
    if a.stream_all_chunks || not a.first_chunk_sent
    then (
      some
          (record { id = a.query_id; response_chunk = text; first_chunk = not a.first_chunk_sent }),
      record a { first_chunk_sent = true },
    )
    else (none, a)

-- `self.tool_call_chunks.append(tuple(delta.tool_calls))`
abbrev pub keep_calls : Option (List ToolCall) → Accumulator → Accumulator
keep_calls none a = a
keep_calls (some []) a = a
keep_calls (some (c ∷ cs)) a = record a { tool_call_chunks = a.tool_call_chunks ++ (c ∷ cs) ∷ [] }

-- the branches of `add_chunk` on the delta
unfoldable pub add_delta : SseDelta → Accumulator → Option StreamChunk × Accumulator
unfolding emit
add_delta d a =
    let reasoning = or_else d.reasoning_content d.reasoning in
    if given d.content
    then emit (text_of d.content)
        (record a { output_chunks = a.output_chunks ++ text_of d.content ∷ [] })
    else if given reasoning
    then emit (text_of reasoning)
        (record a { reasoning_chunks = a.reasoning_chunks ++ text_of reasoning ∷ [] })
    else if has_calls d.tool_calls && not a.first_chunk_sent
    then (
      some (record { id = a.query_id; response_chunk = ""; first_chunk = true }),
      record a { first_chunk_sent = true },
    )
    else (none, a)

abbrev pub add_optional : Option SseDelta → Accumulator → Option StreamChunk × Accumulator
add_optional none a = (none, a)
add_optional (some d) a = add_delta d (keep_calls d.tool_calls a)

abbrev pub keep_reason : Option String → Accumulator → Accumulator
keep_reason reason a = record a { finish_reason = or_else reason a.finish_reason }

-- `add_chunk`, of a choice; of anything else it is `(none, a)`
unfoldable pub add_chunk : SseChoice → Accumulator → Option StreamChunk × Accumulator
add_chunk choice a = add_optional choice.delta (keep_reason choice.finish_reason a)

-- `[chunks[0]]`, with the joined rest where there is one
abbrev pub first_and_rest : List String → List String
first_and_rest [] = []
first_and_rest (c ∷ []) = c ∷ []
first_and_rest (c ∷ d ∷ cs) = c ∷ join (d ∷ cs) ∷ []

abbrev pub calls_of : List (List ToolCall) → Option ToolCalls
calls_of [] = none
calls_of (c ∷ cs) = some (chunked (c ∷ cs))

abbrev pub text_output : List String → List String → Option ToolCalls → TextModelOutput
text_output output (r ∷ rs) calls = record {
  output = one (join output);
  reasoning = some (chunks (first_and_rest (r ∷ rs)));
  tool_calls = calls;
}
text_output output [] calls = record {
  output = chunks (first_and_rest output);
  reasoning = none;
  tool_calls = calls;
}

-- `get_final_output`; the merged tool calls of its metadata are those of the output
unfoldable pub get_final_output : Accumulator → FinalResult
get_final_output a = record {
  id = a.query_id;
  response_output = text_output a.output_chunks a.reasoning_chunks (calls_of a.tool_call_chunks);
  first_chunk = not a.first_chunk_sent;
  finish_reason = a.finish_reason;
}

abbrev pub sent : Option StreamChunk → List StreamChunk
sent none = []
sent (some c) = c ∷ []

-- the loop of `_handle_streaming_body` over the choices of a stream: the chunks sent, and the end
unfoldable pub add_all : List SseChoice → Accumulator → List StreamChunk × Accumulator
unfolding add_chunk
add_all [] a = ([], a)
add_all (c ∷ cs) a =
    let (chunk, b) = add_chunk c a in let (more, e) = add_all cs b in (sent chunk ++ more, e)
