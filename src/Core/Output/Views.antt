-- ===== src/Core/Output/Views.antt =====
-- core/types.py: the text of an output and its message parts, whole and after the first chunk.
use endpoints.Base.{
  Bool, true, false, ◌||◌, ◌&&◌, not, is_some, Option, none, some, List, [], ◌∷◌, ◌++◌, String,
  if◌then◌else◌,
}
use endpoints.Core.Output.{
  ToolCall, ToolCalls, OutputElem, TextModelOutput, nonempty, truthy, truthy?, join,
  merge_tool_calls, one, chunks, chunked,
}

-- the chunks of a value, as `parts.append` and `parts.extend` add them
abbrev pub all_of : OutputElem → List String
all_of (one s) = s ∷ []
all_of (chunks ss) = ss

abbrev pub rest_of : List String → List String
rest_of [] = []
rest_of (_ ∷ ss) = ss

abbrev pub is_chunked : Option OutputElem → Bool
is_chunked (some (chunks _)) = true
is_chunked (some (one _)) = false
is_chunked none = false

-- `if isinstance(self.reasoning, tuple) and len(self.reasoning) > 1: ...self.reasoning[1:]`
abbrev pub reasoning_tail : Option OutputElem → List String
reasoning_tail (some (chunks ss)) = rest_of ss
reasoning_tail (some (one _)) = []
reasoning_tail none = []

abbrev pub has_any : List String → Bool
has_any [] = false
has_any (_ ∷ _) = true

abbrev pub drop_chunk : Option ToolCalls → Option ToolCalls
drop_chunk (some (chunked (c ∷ cs))) = some (chunked cs)
drop_chunk calls = calls

-- A pure tool-call stream loses its first chunk.
abbrev pub calls_after : TextModelOutput → Option ToolCalls
calls_after o =
    if truthy o.output || truthy? o.reasoning then o.tool_calls else drop_chunk o.tool_calls

-- the output's share of the text after the first chunk, given whether a reasoning tail came before
unfoldable pub output_after : Bool → Option OutputElem → OutputElem → List String
output_after tail reasoning (one s) =
    if nonempty s && (tail || truthy? reasoning && is_chunked reasoning) then s ∷ [] else []
output_after tail reasoning (chunks ss) = if tail || truthy? reasoning then ss else rest_of ss

-- `msgspec.json.encode(list(calls)).decode()` is third-party code: a parameter.
module _ (encode : List ToolCall → String) where
  abbrev pub encoded : Option (List ToolCall) → List String
  encoded none = []
  encoded (some []) = []
  encoded (some (c ∷ cs)) = encode (c ∷ cs) ∷ []

  -- `__str__`
  unfoldable pub to_text : TextModelOutput → String
  to_text o = join (
      (if truthy? o.reasoning then parts_of o.reasoning else [])
      ++ ((if truthy o.output then all_of o.output else [])
          ++ encoded (merge_tool_calls o.tool_calls)))
    where
      parts_of : Option OutputElem → List String
      parts_of none = []
      parts_of (some e) = all_of e

  unfoldable pub text_after_first_chunk : TextModelOutput → String
  unfolding output_after
  text_after_first_chunk o =
      let parts = reasoning_tail o.reasoning in
      join (
        parts
        ++ (output_after (has_any parts) o.reasoning o.output
            ++ encoded (merge_tool_calls (calls_after o))))

-- `(content, reasoning, tool_calls)`
pub record MessageParts : Type 0 where
  pub content : String
  pub reasoning : Option String
  pub tool_calls : Option (List ToolCall)

unfoldable pub as_message_parts : TextModelOutput → MessageParts
unfolding join
as_message_parts o = record {
  content = join (all_of o.output);
  reasoning = if truthy? o.reasoning then joined o.reasoning else none;
  tool_calls = merge_tool_calls o.tool_calls;
}
  where
    joined : Option OutputElem → Option String
    joined none = none
    joined (some e) = some (join (all_of e))

-- `reasoning_after`
abbrev pub reasoning_after : Option OutputElem → Option String
reasoning_after (some (chunks (r ∷ (r' ∷ rs)))) = some (join (r' ∷ rs))
reasoning_after (some (chunks (r ∷ []))) = none
reasoning_after (some (chunks [])) = none
reasoning_after (some (one s)) = none
reasoning_after none = none

abbrev pub has_two : List String → Bool
has_two [] = false
has_two (_ ∷ []) = false
has_two (_ ∷ (_ ∷ _)) = true

-- `content_after`, given `has_reasoning_tail`
unfoldable pub content_after : Bool → Option OutputElem → OutputElem → String
unfolding join
content_after tail reasoning (one s) =
    if nonempty s then (if tail || truthy? reasoning && is_chunked reasoning then s else "") else ""
content_after tail reasoning (chunks ss) =
    if truthy (chunks ss)
    then (if tail || truthy? reasoning
        then join ss
        else if has_two ss
        then join (rest_of ss)
        else "")
    else ""

-- `tool_calls and isinstance(tool_calls[0], list | tuple)`
abbrev pub are_chunked : Option ToolCalls → Bool
are_chunked (some (chunked (_ ∷ _))) = true
are_chunked _ = false

-- `tool_calls[1:]`
abbrev pub tail_calls : Option ToolCalls → Option ToolCalls
tail_calls (some (chunked (_ ∷ cs))) = some (chunked cs)
tail_calls calls = calls

unfoldable pub as_message_parts_after_first_chunk : TextModelOutput → MessageParts
unfolding content_after
as_message_parts_after_first_chunk o = record {
  content = content_after (is_some (reasoning_after o.reasoning)) o.reasoning o.output;
  reasoning = reasoning_after o.reasoning;
  tool_calls = merge_tool_calls (
      if are_chunked o.tool_calls && not (truthy o.output || truthy? o.reasoning)
      then tail_calls o.tool_calls
      else o.tool_calls);
}
