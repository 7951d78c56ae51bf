-- ===== src/Client/Accumulator/Final.antt =====
-- openai/accumulator.py: the final result holds every text and tool call of the stream.
use Prim.Native.String.{◌++◌ as str_append}
use mathlib.Core.List.{append-nil, append_assoc}
use endpoints.Core.Output.Parts.{StartsWithText}
use endpoints.Base.{
  ◌<◌, ◌+◌, length, Bool, ◌||◌, ◌&&◌, not, ◌≡◌, refl, sym, ◌∙◌, ap, Option, none, some, List, [],
  ◌∷◌, ◌++◌, String, if◌then◌else◌, Bool-cases, inl, inr, arith,
}
use endpoints.Core.Output.{ToolCalls, ToolCall, merge_tool_calls, join}
use endpoints.Core.Output.Texts.{append_text_nil}
use endpoints.Core.Output.Views.{as_message_parts}
use endpoints.Client.Accumulator.{
  SseChoice, SseDelta, Accumulator, new_accumulator, given, or_else, text_of, has_calls, emit,
  keep_calls, add_delta, add_optional, keep_reason, add_chunk, first_and_rest, calls_of,
  text_output, get_final_output, add_all,
}

-- What one delta contributes to the output, to the reasoning and to the tool calls.
abbrev pub reasoning_of : SseDelta → Option String
reasoning_of d = or_else d.reasoning_content d.reasoning

abbrev pub content_part : Option SseDelta → List String
content_part none = []
content_part (some d) = if given d.content then text_of d.content ∷ [] else []

abbrev pub reasoning_part : Option SseDelta → List String
reasoning_part none = []
reasoning_part (some d) =
    if not (given d.content) && given (reasoning_of d) then text_of (reasoning_of d) ∷ [] else []

abbrev pub calls_in : Option (List ToolCall) → List (List ToolCall)
calls_in none = []
calls_in (some []) = []
calls_in (some (c ∷ cs)) = (c ∷ cs) ∷ []

abbrev pub calls_part : Option SseDelta → List (List ToolCall)
calls_part none = []
calls_part (some d) = calls_in d.tool_calls

-- What all choices of a stream contribute.
abbrev pub contents : List SseChoice → List String
contents [] = []
contents (c ∷ cs) = content_part c.delta ++ contents cs

abbrev pub reasonings : List SseChoice → List String
reasonings [] = []
reasonings (c ∷ cs) = reasoning_part c.delta ++ reasonings cs

abbrev pub call_parts : List SseChoice → List (List ToolCall)
call_parts [] = []
call_parts (c ∷ cs) = calls_part c.delta ++ call_parts cs

-- The three lists of an accumulator.
record Holds (out rs : List String) (calls : List (List ToolCall)) (a : Accumulator) : Type 0 where
  output : a.output_chunks ≡ out
  reasoning : a.reasoning_chunks ≡ rs
  tools : a.tool_call_chunks ≡ calls

emit-Holds :
    (text : String) (out rs : List String) (calls : List (List ToolCall)) (a : Accumulator)
    → Holds out rs calls a
    → Holds out rs calls (emit text a).1
unfolding emit
emit-Holds text out rs calls a h =
    elim (Bool-cases (a.stream_all_chunks || not a.first_chunk_sent)) [
      | inl sends ↦
          rw sends (record { output = h.output; reasoning = h.reasoning; tools = h.tools })
      | inr keeps ↦ rw keeps h
    ]

calls-Holds :
    (t : Option (List ToolCall)) (a : Accumulator)
    → Holds a.output_chunks a.reasoning_chunks (a.tool_call_chunks ++ calls_in t) (keep_calls t a)
calls-Holds none a = record { output = refl; reasoning = refl; tools = sym (append-nil _) }
calls-Holds (some []) a = record { output = refl; reasoning = refl; tools = sym (append-nil _) }
calls-Holds (some (c ∷ cs)) a = record { output = refl; reasoning = refl; tools = refl }

delta-Holds :
    (d : SseDelta) (a : Accumulator)
    → Holds
        (a.output_chunks ++ content_part (some d))
        (a.reasoning_chunks ++ reasoning_part (some d))
        a.tool_call_chunks
        (add_delta d a).1
unfolding add_delta
delta-Holds d a = elim (Bool-cases (given d.content)) [
  | inl said ↦ rw said (
      emit-Holds (text_of d.content) _ _ _ _
        (record { output = refl; reasoning = sym (append-nil _); tools = refl }))
  | inr silent ↦ elim (Bool-cases (given (reasoning_of d))) [
    | inl reasons ↦
        rw (silent, reasons)
          (emit-Holds (text_of (reasoning_of d)) _ _ _ _
            (record { output = sym (append-nil _); reasoning = refl; tools = refl }))
    | inr empty ↦
        rw (silent, empty)
          (elim (Bool-cases (has_calls d.tool_calls && not a.first_chunk_sent)) [
            | inl first ↦ rw first (record {
              output = sym (append-nil _);
              reasoning = sym (append-nil _);
              tools = refl;
            })
            | inr later ↦ rw later (record {
              output = sym (append-nil _);
              reasoning = sym (append-nil _);
              tools = refl;
            })
          ])
  ]
]

optional-Holds :
    (d : Option SseDelta) (a : Accumulator)
    → Holds
        (a.output_chunks ++ content_part d)
        (a.reasoning_chunks ++ reasoning_part d)
        (a.tool_call_chunks ++ calls_part d)
        (add_optional d a).1
optional-Holds none a = record {
  output = sym (append-nil _);
  reasoning = sym (append-nil _);
  tools = sym (append-nil _);
}
optional-Holds (some d) a =
    let kept = calls-Holds d.tool_calls a in
    let added = delta-Holds d (keep_calls d.tool_calls a) in
    record {
      output = added.output ∙ ap (λ l. l ++ content_part (some d)) kept.output;
      reasoning = added.reasoning ∙ ap (λ l. l ++ reasoning_part (some d)) kept.reasoning;
      tools = added.tools ∙ kept.tools;
    }

all-Holds :
    (cs : List SseChoice) (a : Accumulator)
    → Holds
        (a.output_chunks ++ contents cs)
        (a.reasoning_chunks ++ reasonings cs)
        (a.tool_call_chunks ++ call_parts cs)
        (add_all cs a).1
unfolding add_all add_chunk
all-Holds [] a = record {
  output = sym (append-nil _);
  reasoning = sym (append-nil _);
  tools = sym (append-nil _);
}
all-Holds (c ∷ cs) a =
    let h = optional-Holds c.delta (keep_reason c.finish_reason a) in
    let r = all-Holds cs (add_chunk c a).1 in
    record {
      output =
          r.output
          ∙ ap (λ l. l ++ contents cs) h.output
          ∙ append_assoc a.output_chunks (content_part c.delta) (contents cs);
      reasoning =
          r.reasoning
          ∙ ap (λ l. l ++ reasonings cs) h.reasoning
          ∙ append_assoc a.reasoning_chunks (reasoning_part c.delta) (reasonings cs);
      tools =
          r.tools
          ∙ ap (λ l. l ++ call_parts cs) h.tools
          ∙ append_assoc a.tool_call_chunks (calls_part c.delta) (call_parts cs);
    }

join-first_and_rest : (xs : List String) → join (first_and_rest xs) ≡ join xs
unfolding join
join-first_and_rest [] = refl
join-first_and_rest (x ∷ []) = refl
join-first_and_rest (x ∷ y ∷ xs) = ap (str_append x) (append_text_nil (join (y ∷ xs)))

-- `text_or_none`: no reasoning at all is `none`, else the joined texts.
abbrev pub joined : List String → Option String
joined [] = none
joined (r ∷ rs) = some (join (r ∷ rs))

text_output-parts :
    (out rs : List String) (t : List (List ToolCall))
    → let p = as_message_parts (text_output out rs (calls_of t)) in
      (p.content ≡ join out)
      × (p.reasoning ≡ joined rs)
      × (p.tool_calls ≡ merge_tool_calls (calls_of t))
unfolding as_message_parts
text_output-parts [] [] t = (refl, refl, refl)
text_output-parts (o ∷ os) [] t = (join-first_and_rest (o ∷ os), refl, refl)
text_output-parts out (r ∷ []) t = (append_text_nil (join out), refl, refl)
text_output-parts out (r ∷ s ∷ rs) t =
    (append_text_nil (join out), ap some (join-first_and_rest (r ∷ s ∷ rs)), refl)

-- The final result of any stream of choices has the texts of all its deltas: as content the joined
-- content texts, as reasoning the joined reasoning texts (`reasoning_content` before `reasoning`,
-- of the deltas without content; none if there is none), and as tool calls the merged parts of all
-- deltas.
pub get_final_output-parts :
    (cs : List SseChoice) (query_id : String) (stream_all : Bool)
    → let r = get_final_output (add_all cs (new_accumulator query_id stream_all)).1 in
      let p = as_message_parts r.response_output in
      (p.content ≡ join (contents cs))
      × (p.reasoning ≡ joined (reasonings cs))
      × (p.tool_calls ≡ merge_tool_calls (calls_of (call_parts cs)))
unfolding get_final_output
get_final_output-parts cs query_id stream_all =
    let h = all-Holds cs (new_accumulator query_id stream_all) in
    rw (h.output, h.reasoning, h.tools)
      (text_output-parts (contents cs) (reasonings cs) (call_parts cs))

-- What the accumulator builds of a stream with a content or a reasoning starts with a text.
pub text_output-StartsWithText :
    (output reasoning : List String) (calls : Option ToolCalls)
    → 0 < length output + length reasoning
    → StartsWithText (text_output output reasoning calls)
text_output-StartsWithText output (r ∷ []) calls h = tt
text_output-StartsWithText output (r ∷ (r' ∷ rs)) calls h = tt
text_output-StartsWithText (c ∷ []) [] calls h = tt
text_output-StartsWithText (c ∷ (d ∷ cs)) [] calls h = tt
text_output-StartsWithText [] [] calls h = absurd (omega (arith, h))
