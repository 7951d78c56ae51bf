-- ===== src/Core/Output/Merging/Streams.antt =====
-- core/types.py: what `merge_tool_calls` makes of the parts of a stream.
use Prim.Native.String.{◌++◌ as str_append}
use Prim.Native.String.append
use endpoints.Base.{
  ℕ, ◌≡◌, refl, sym, ◌∙◌, ap, some, List, [], ◌∷◌, ◌++◌, ◌==◌, if_true, if_false, Bool-cases, inl,
  inr, arith, ==→eq,
}
use endpoints.Core.Output.{
  ToolCall, chunked, merge_into, merge_chunk, merge_chunks, merge_tool_calls,
}
use endpoints.Core.Output.Texts.{append_text_nil, append_text_assoc}
use endpoints.Core.Output.Merging.{
  text_or_empty, Increasing, arguments_at, streamed_arguments, flatten, merge_into-Increasing,
  merge_into-arguments_at, merge_into-arguments_other,
}

merge_chunk-Increasing :
    (ps acc : List ToolCall) → Increasing 0 acc → Increasing 0 (merge_chunk ps acc)
unfolding merge_chunk
merge_chunk-Increasing [] acc h = h
merge_chunk-Increasing (p ∷ ps) acc h =
    merge_chunk-Increasing ps (merge_into p acc) (merge_into-Increasing p 0 acc (omega arith) h)

merge_chunk-arguments :
    (i : ℕ) (ps acc : List ToolCall)
    → Increasing 0 acc
    → arguments_at i (merge_chunk ps acc)
      ≡ str_append (arguments_at i acc) (streamed_arguments i ps)
unfolding merge_chunk
merge_chunk-arguments i [] acc h = sym (append_text_nil (arguments_at i acc))
merge_chunk-arguments i (p ∷ ps) acc h =
    merge_chunk-arguments i ps (merge_into p acc) (merge_into-Increasing p 0 acc (omega arith) h)
    ∙ elim (Bool-cases (p.index == i)) [
      | inl same ↦
          ap (λ s. str_append s (streamed_arguments i ps))
            (merge_into-arguments_at i p acc h (==→eq p.index i same))
          ∙ append_text_assoc (arguments_at i acc) (text_or_empty p.arguments)
              (streamed_arguments i ps)
          ∙ ap (str_append (arguments_at i acc)) (sym (if_true (p.index == i) _ _ same))
      | inr other ↦
          ap (λ s. str_append s (streamed_arguments i ps))
            (merge_into-arguments_other i p acc other)
          ∙ ap (str_append (arguments_at i acc)) (sym (if_false (p.index == i) _ _ other))
    ]

streamed_arguments-append :
    (i : ℕ) (ps qs : List ToolCall)
    → streamed_arguments i (ps ++ qs)
      ≡ str_append (streamed_arguments i ps) (streamed_arguments i qs)
streamed_arguments-append i [] qs = sym (append.nil (streamed_arguments i qs))
streamed_arguments-append i (p ∷ ps) qs = elim (Bool-cases (p.index == i)) [
  | inl same ↦
      if_true (p.index == i) _ _ same
      ∙ ap (str_append (text_or_empty p.arguments)) (streamed_arguments-append i ps qs)
      ∙ sym (
          append_text_assoc (text_or_empty p.arguments) (streamed_arguments i ps)
            (streamed_arguments i qs))
      ∙ ap (λ s. str_append s (streamed_arguments i qs)) (sym (if_true (p.index == i) _ _ same))
  | inr other ↦
      if_false (p.index == i) _ _ other
      ∙ streamed_arguments-append i ps qs
      ∙ ap (λ s. str_append s (streamed_arguments i qs)) (sym (if_false (p.index == i) _ _ other))
]

merge_chunks-Increasing :
    (cs : List (List ToolCall)) (acc : List ToolCall)
    → Increasing 0 acc
    → Increasing 0 (merge_chunks cs acc)
unfolding merge_chunks
merge_chunks-Increasing [] acc h = h
merge_chunks-Increasing (c ∷ cs) acc h =
    merge_chunks-Increasing cs (merge_chunk c acc) (merge_chunk-Increasing c acc h)

merge_chunks-arguments :
    (i : ℕ) (cs : List (List ToolCall)) (acc : List ToolCall)
    → Increasing 0 acc
    → arguments_at i (merge_chunks cs acc)
      ≡ str_append (arguments_at i acc) (streamed_arguments i (flatten cs))
unfolding merge_chunks
merge_chunks-arguments i [] acc h = sym (append_text_nil (arguments_at i acc))
merge_chunks-arguments i (c ∷ cs) acc h =
    merge_chunks-arguments i cs (merge_chunk c acc) (merge_chunk-Increasing c acc h)
    ∙ ap (λ s. str_append s (streamed_arguments i (flatten cs))) (merge_chunk-arguments i c acc h)
    ∙ append_text_assoc (arguments_at i acc) (streamed_arguments i c)
        (streamed_arguments i (flatten cs))
    ∙ ap (str_append (arguments_at i acc)) (sym (streamed_arguments-append i c (flatten cs)))

-- For a non-empty stream of tool-call chunks, `merge_tool_calls` returns calls in strictly
-- increasing order of their indices, and the arguments of the call of any index `i` are the
-- argument texts of the parts of index `i` in all chunks, joined in the order of the stream (the
-- empty text where there is no such part).
pub merge_tool_calls-arguments :
    (i : ℕ) (c : List ToolCall) (cs : List (List ToolCall))
    → (m : List ToolCall) × (merge_tool_calls (some (chunked (c ∷ cs))) ≡ some m)
      × Increasing 0 m
      × (arguments_at i m ≡ streamed_arguments i (flatten (c ∷ cs)))
unfolding merge_tool_calls
merge_tool_calls-arguments i c cs = (
  merge_chunks (c ∷ cs) [],
  refl,
  merge_chunks-Increasing (c ∷ cs) [] tt,
  merge_chunks-arguments i (c ∷ cs) [] tt ∙ append.nil (streamed_arguments i (flatten (c ∷ cs))),
)
