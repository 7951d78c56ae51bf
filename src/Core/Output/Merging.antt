-- ===== src/Core/Output/Merging.antt =====
-- core/types.py: what `merge_tool_calls` makes of one part of a stream.
pub mod Streams
use Prim.Native.String.{◌++◌ as str_append}
use Prim.Native.String.append
use endpoints.Base.{
  ℕ, suc, ◌+◌, ◌≤◌, ◌<◌, Bool, true, false, ◌≡◌, refl, sym, ◌∙◌, ap, Option, none, some, List, [],
  ◌∷◌, ◌++◌, String, ltb, ◌==◌, if◌then◌else◌, if_true, if_false, Bool-cases, inl, inr, arith,
  ltb→lt, ltb→le, ==→eq,
}
use endpoints.Core.Output.{
  ToolCall, ToolCalls, chunked, merge_part, add_text, fresh_call, merge_into, merge_chunk,
  merge_chunks, merge_tool_calls,
}
use endpoints.Core.Output.Texts.{append_text_nil, append_text_assoc}

abbrev pub text_or_empty : Option String → String
text_or_empty none = ""
text_or_empty (some s) = s

-- Calls in increasing order of their indices, from `lo` on.
abbrev pub Increasing : ℕ → List ToolCall → Type 0
Increasing lo [] = Unit {0}
Increasing lo (c ∷ cs) = (lo ≤ c.index) × Increasing (c.index + 1) cs

-- The arguments of the call of index `i`.
abbrev pub arguments_at : ℕ → List ToolCall → String
arguments_at i [] = ""
arguments_at i (c ∷ cs) = if c.index == i then text_or_empty c.arguments else arguments_at i cs

-- The argument texts of the parts of index `i`, one after the other.
abbrev pub streamed_arguments : ℕ → List ToolCall → String
streamed_arguments i [] = ""
streamed_arguments i (p ∷ ps) =
    if p.index == i
    then str_append (text_or_empty p.arguments) (streamed_arguments i ps)
    else streamed_arguments i ps

abbrev pub flatten : List (List ToolCall) → List ToolCall
flatten [] = []
flatten (c ∷ cs) = c ++ flatten cs

merge_part-arguments :
    (p c : ToolCall)
    → text_or_empty (merge_part p c).arguments
      ≡ str_append (text_or_empty c.arguments) (text_or_empty p.arguments)
unfolding merge_part add_text
merge_part-arguments p c = go p.arguments c.arguments
  where
    go :
        (a b : Option String)
        → text_or_empty (add_text a b) ≡ str_append (text_or_empty b) (text_or_empty a)
    go none b = sym (append_text_nil (text_or_empty b))
    go (some s) none = sym (append.nil s)
    go (some s) (some t) = refl

part-index : (p c : ToolCall) → (merge_part p c).index ≡ c.index
unfolding merge_part
part-index p c = refl

absent : (lo i : ℕ) (cs : List ToolCall) → Increasing lo cs → i < lo → arguments_at i cs ≡ ""
absent lo i [] h lt = refl
absent lo i (c ∷ cs) h lt =
    if_false (c.index == i) _ _ (ground (arith, h.0))
    ∙ absent (c.index + 1) i cs h.1 (omega (arith, h.0))

pub merge_into-Increasing :
    (p : ToolCall) (lo : ℕ) (cs : List ToolCall)
    → lo ≤ p.index
    → Increasing lo cs
    → Increasing lo (merge_into p cs)
unfolding merge_into merge_part
merge_into-Increasing p lo [] le h = (le, tt)
merge_into-Increasing p lo (c ∷ cs) le h = elim (Bool-cases (ltb p.index c.index)) [
  | inl lt ↦ rw (lt) (le, (omega (arith, ltb→lt p.index c.index lt), h.1))
  | inr ge ↦ elim (Bool-cases (p.index == c.index)) [
    | inl same ↦ rw (ge, same) (h.0, h.1)
    | inr other ↦
        rw (ge, other)
          (h.0, merge_into-Increasing p (c.index + 1) cs (ground (arith, ge, other)) h.1)
  ]
]

merge_into-arguments_same :
    (p : ToolCall) (lo : ℕ) (cs : List ToolCall)
    → Increasing lo cs
    → arguments_at p.index (merge_into p cs)
      ≡ str_append (arguments_at p.index cs) (text_or_empty p.arguments)
unfolding merge_into
merge_into-arguments_same p lo [] h =
    if_true (p.index == p.index) _ _ (ground arith) ∙ merge_part-arguments p (fresh_call p.index)
merge_into-arguments_same p lo (c ∷ cs) h = elim (Bool-cases (ltb p.index c.index)) [
  | inl lt ↦ rw (lt) (
      if_true (p.index == p.index) _ _ (ground arith)
      ∙ merge_part-arguments p (fresh_call p.index)
      ∙ ap (λ s. str_append s (text_or_empty p.arguments))
          (sym (
            absent (p.index + 1) p.index (c ∷ cs) (omega (arith, ltb→lt p.index c.index lt), h.1)
              (omega arith))))
  | inr ge ↦ elim (Bool-cases (p.index == c.index)) [
    | inl same ↦
        rw (ge, same)
          (if_true (c.index == p.index) _ _ (ground (arith, same))
            ∙ merge_part-arguments p c
            ∙ ap (λ s. str_append s (text_or_empty p.arguments))
                (sym (if_true (c.index == p.index) _ _ (ground (arith, same)))))
    | inr other ↦
        rw (ge, other)
          (if_false (c.index == p.index) _ _ (ground (arith, other))
            ∙ merge_into-arguments_same p (c.index + 1) cs h.1
            ∙ ap (λ s. str_append s (text_or_empty p.arguments))
                (sym (if_false (c.index == p.index) _ _ (ground (arith, other)))))
  ]
]

pub merge_into-arguments_at :
    (i : ℕ) (p : ToolCall) (cs : List ToolCall)
    → Increasing 0 cs
    → p.index ≡ i
    → arguments_at i (merge_into p cs) ≡ str_append (arguments_at i cs) (text_or_empty p.arguments)
merge_into-arguments_at i p cs h e = rw (sym e) (merge_into-arguments_same p 0 cs h)

pub merge_into-arguments_other :
    (i : ℕ) (p : ToolCall) (cs : List ToolCall)
    → (p.index == i) ≡ false
    → arguments_at i (merge_into p cs) ≡ arguments_at i cs
unfolding merge_into
merge_into-arguments_other i p [] h = if_false (p.index == i) _ _ h
merge_into-arguments_other i p (c ∷ cs) h = elim (Bool-cases (ltb p.index c.index)) [
  | inl lt ↦ rw (lt) (if_false (p.index == i) _ _ h)
  | inr ge ↦ elim (Bool-cases (p.index == c.index)) [
    | inl same ↦
        rw (ge, same)
          (if_false (c.index == i) _ _ (ground (arith, same, h))
            ∙ sym (if_false (c.index == i) _ _ (ground (arith, same, h))))
    | inr other ↦
        rw (ge, other)
          (ap (λ s. if c.index == i then text_or_empty c.arguments else s)
            (merge_into-arguments_other i p cs h))
  ]
]
