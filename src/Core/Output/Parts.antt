-- ===== src/Core/Output/Parts.antt =====
-- core/types.py: the two views of a stream's output after its first chunk, and the whole text.
use Prim.Native.String.{◌++◌ as str_append}
use endpoints.Base.{
  Bool, true, false, ◌||◌, ◌&&◌, not, ◌≡◌, refl, sym, ap, ◌∙◌, Option, none, some, List, [], ◌∷◌,
  ◌++◌, String, if◌then◌else◌, is_some, Bool-cases, inl, inr,
}
use endpoints.Core.Output.{
  OutputElem, one, chunks, TextModelOutput, ToolCall, ToolCalls, whole, chunked, join, nonempty,
  truthy, truthy?, merge_tool_calls,
}
use endpoints.Core.Output.Views.{
  encoded, to_text, text_after_first_chunk, output_after, as_message_parts_after_first_chunk,
  reasoning_tail, has_any, is_chunked, calls_after, drop_chunk, reasoning_after, content_after,
  are_chunked, tail_calls,
}
use endpoints.Core.Output.Texts.{join-append, append_text_nil}

-- `x or ""`
abbrev pub or_empty : Option String → String
or_empty none = ""
or_empty (some s) = s

-- The chunk that a stream begins with: of the reasoning if it has one, else of the output.
abbrev pub first_chunk : TextModelOutput → String
first_chunk o = go o.reasoning o.output
  where
    of_output : OutputElem → String
    of_output (chunks (c ∷ _)) = c
    of_output (chunks []) = ""
    of_output (one _) = ""

    go : Option OutputElem → OutputElem → String
    go (some (chunks (r ∷ _))) _ = r
    go (some (chunks [])) e = of_output e
    go (some (one _)) _ = ""
    go none e = of_output e

-- The output of a stream that has a text: chunks of reasoning, with any content, or else chunks of
-- content. A stream of tool calls alone is none of them.
abbrev pub StartsWithText : TextModelOutput → Type 0
StartsWithText o = go o.reasoning o.output
  where
    has_chunk : OutputElem → Type 0
    has_chunk (chunks (_ ∷ _)) = Unit {0}
    has_chunk (chunks []) = ⊥
    has_chunk (one _) = ⊥

    go : Option OutputElem → OutputElem → Type 0
    go (some (chunks (_ ∷ _))) e = Unit {0}
    go (some (chunks [])) e = has_chunk e
    go (some (one _)) _ = ⊥
    go none e = has_chunk e

reasoning_after-join :
    (r : Option OutputElem) → or_empty (reasoning_after r) ≡ join (reasoning_tail r)
unfolding join
reasoning_after-join (some (chunks (r ∷ (r' ∷ rs)))) = refl
reasoning_after-join (some (chunks (r ∷ []))) = refl
reasoning_after-join (some (chunks [])) = refl
reasoning_after-join (some (one s)) = refl
reasoning_after-join none = refl

reasoning_after-some :
    (r : Option OutputElem) → is_some (reasoning_after r) ≡ has_any (reasoning_tail r)
reasoning_after-some (some (chunks (r ∷ (r' ∷ rs)))) = refl
reasoning_after-some (some (chunks (r ∷ []))) = refl
reasoning_after-some (some (chunks [])) = refl
reasoning_after-some (some (one s)) = refl
reasoning_after-some none = refl

content_after-join :
    (tail : Bool) (r : Option OutputElem) (e : OutputElem)
    → content_after tail r e ≡ join (output_after tail r e)
unfolding content_after output_after join
content_after-join tail r (one s) = elim (Bool-cases (nonempty s)) [
  | inl said ↦ elim (Bool-cases (tail || truthy? r && is_chunked r)) [
    | inl late ↦ rw (said, late) (sym (append_text_nil s))
    | inr first ↦ rw (said, first) refl
  ]
  | inr silent ↦ rw silent refl
]
content_after-join tail r (chunks []) = elim (Bool-cases (tail || truthy? r)) [
  | inl late ↦ rw late refl
  | inr first ↦ rw first refl
]
content_after-join tail r (chunks (c ∷ [])) = elim (Bool-cases (tail || truthy? r)) [
  | inl late ↦ rw late refl
  | inr first ↦ rw first refl
]
content_after-join tail r (chunks (c ∷ (d ∷ cs))) = elim (Bool-cases (tail || truthy? r)) [
  | inl late ↦ rw late refl
  | inr first ↦ rw first refl
]

-- the tool calls without a first chunk of a pure tool-call stream, in the words of the two functions
tail_calls-eq :
    (o : TextModelOutput)
    → (if are_chunked o.tool_calls && not (truthy o.output || truthy? o.reasoning)
        then tail_calls o.tool_calls
        else o.tool_calls)
      ≡ calls_after o
tail_calls-eq o = go (truthy o.output || truthy? o.reasoning) o.tool_calls
  where
    go :
        (text : Bool) (calls : Option ToolCalls)
        → (if are_chunked calls && not text then tail_calls calls else calls)
          ≡ (if text then calls else drop_chunk calls)
    go true none = refl
    go false none = refl
    go true (some (whole cs)) = refl
    go false (some (whole cs)) = refl
    go true (some (chunked [])) = refl
    go false (some (chunked [])) = refl
    go true (some (chunked (c ∷ cs))) = refl
    go false (some (chunked (c ∷ cs))) = refl

join_three :
    (xs ys zs : List String)
    → join (xs ++ (ys ++ zs)) ≡ str_append (join xs) (str_append (join ys) (join zs))
join_three xs ys zs = join-append xs (ys ++ zs) ∙ ap (str_append (join xs)) (join-append ys zs)

module _ (encode : List ToolCall → String) where
  -- The text after the first chunk is the reasoning, the content and the encoded tool calls of the
  -- message parts after the first chunk, in that order, for every output.
  pub text_after-eq-message_parts_after :
      (o : TextModelOutput)
      → text_after_first_chunk encode o ≡ (
          let p = as_message_parts_after_first_chunk o in
          str_append
            (or_empty p.reasoning)
            (str_append p.content (join (encoded encode p.tool_calls))))
  unfolding text_after_first_chunk as_message_parts_after_first_chunk
  text_after-eq-message_parts_after o =
      let r = o.reasoning in
      let tail = reasoning_tail r in
      let out = output_after (has_any tail) r o.output in
      let calls = join (encoded encode (merge_tool_calls (calls_after o))) in
      join_three tail out (encoded encode (merge_tool_calls (calls_after o)))
      ∙ ap (λ s. str_append s (str_append (join out) calls)) (sym (reasoning_after-join r))
      ∙ ap (λ s. str_append (or_empty (reasoning_after r)) (str_append s calls))
          (sym (content_after-join (has_any tail) r o.output)
            ∙ ap (λ b. content_after b r o.output) (sym (reasoning_after-some r)))
      ∙ ap
          (λ c. str_append (or_empty (reasoning_after r)) (
            str_append (content_after (is_some (reasoning_after r)) r o.output)
              (join (encoded encode (merge_tool_calls c)))))
          (sym (tail_calls-eq o))

  split_of :
      (reasoning : Option OutputElem) (output : OutputElem) (calls : Option ToolCalls)
      → let o : TextModelOutput = record {
        output = output;
        reasoning = reasoning;
        tool_calls = calls;
      } in
        StartsWithText o
        → to_text encode o ≡ str_append (first_chunk o) (text_after_first_chunk encode o)
  unfolding to_text text_after_first_chunk join
  split_of none (chunks []) calls h = absurd h
  split_of none (chunks (c ∷ cs)) calls h = refl
  split_of none (one s) calls h = absurd h
  split_of (some (chunks [])) (chunks []) calls h = absurd h
  split_of (some (chunks [])) (chunks (c ∷ cs)) calls h = refl
  split_of (some (chunks [])) (one s) calls h = absurd h
  split_of (some (chunks (r ∷ []))) (chunks []) calls h = refl
  split_of (some (chunks (r ∷ (r' ∷ rs)))) (chunks []) calls h = refl
  split_of (some (chunks (r ∷ []))) (chunks (c ∷ cs)) calls h = refl
  split_of (some (chunks (r ∷ (r' ∷ rs)))) (chunks (c ∷ cs)) calls h = refl
  split_of (some (chunks (r ∷ []))) (one s) calls h = elim (Bool-cases (nonempty s)) [
    | inl said ↦ rw said refl
    | inr silent ↦ rw silent refl
  ]
  split_of (some (chunks (r ∷ (r' ∷ rs)))) (one s) calls h = elim (Bool-cases (nonempty s)) [
    | inl said ↦ rw said refl
    | inr silent ↦ rw silent refl
  ]
  split_of (some (one s)) output calls h = absurd h

  -- The whole text of a streamed output that starts with a text (a chunk of reasoning, or without any a chunk of content), tool calls included, is that first chunk followed by the text after the first chunk.
  pub to_text_split :
      (o : TextModelOutput)
      → StartsWithText o
      → to_text encode o ≡ str_append (first_chunk o) (text_after_first_chunk encode o)
  to_text_split o h = split_of o.reasoning o.output o.tool_calls h
