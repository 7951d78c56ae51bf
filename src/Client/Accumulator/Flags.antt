-- ===== src/Client/Accumulator/Flags.antt =====
-- openai/accumulator.py: which message of a stream is flagged as its first.
use Prim.Native.String.{◌++◌ as str_append}
use mathlib.Core.Path.{subst}
use endpoints.Base.{
  Bool, true, false, ◌||◌, ◌&&◌, not, ◌≡◌, refl, sym, ◌∙◌, ap, Option, none, some, List, [], ◌∷◌,
  ◌++◌, String, Bool-cases, inl, inr, arith, map,
}
use endpoints.Core.Output.{ToolCall, join}
use endpoints.Core.Output.Texts.{join-append, append_text_nil}
use endpoints.Client.Accumulator.{
  SseChoice, SseDelta, Accumulator, StreamChunk, FinalResult, new_accumulator, given, or_else,
  text_of, has_calls, emit, keep_calls, add_delta, add_optional, keep_reason, add_chunk,
  get_final_output, add_all, sent,
}
use endpoints.Client.Accumulator.Final.{content_part, reasoning_part}

-- The chunks sent after the first one are not flagged.
abbrev pub Later : List StreamChunk → Type 0
Later [] = Unit {0}
Later (c ∷ cs) = (c.first_chunk ≡ false) × Later cs

-- Of the chunks and the final result, in the order of sending, the first is flagged and no other.
abbrev pub FirstOnly : List StreamChunk → FinalResult → Type 0
FirstOnly [] r = r.first_chunk ≡ true
FirstOnly (c ∷ cs) r = (c.first_chunk ≡ true) × Later cs × (r.first_chunk ≡ false)

-- What one call of `add_chunk` may send, given whether a chunk was sent before.
abbrev Sends : Bool → Option StreamChunk × Accumulator → Type 0
Sends old (none, b) = b.first_chunk_sent ≡ old
Sends old (some c, b) = (c.first_chunk ≡ not old) × (b.first_chunk_sent ≡ true)

emit-Sends : (text : String) (a : Accumulator) → Sends a.first_chunk_sent (emit text a)
unfolding emit
emit-Sends text a = elim (Bool-cases (a.stream_all_chunks || not a.first_chunk_sent)) [
  | inl sends ↦ rw sends (refl, refl)
  | inr keeps ↦ rw keeps refl
]

delta-Sends : (d : SseDelta) (a : Accumulator) → Sends a.first_chunk_sent (add_delta d a)
unfolding add_delta
delta-Sends d a = elim (Bool-cases (given d.content)) [
  | inl said ↦ rw said (emit-Sends (text_of d.content) _)
  | inr silent ↦ elim (Bool-cases (given (or_else d.reasoning_content d.reasoning))) [
    | inl reasons ↦ rw (silent, reasons) (emit-Sends _ _)
    | inr empty ↦
        rw (silent, empty)
          (elim (Bool-cases (has_calls d.tool_calls && not a.first_chunk_sent)) [
            | inl first ↦ rw first (ground arith, refl)
            | inr later ↦ rw later refl
          ])
  ]
]

kept :
    (t : Option (List ToolCall)) (a : Accumulator)
    → (keep_calls t a).first_chunk_sent ≡ a.first_chunk_sent
kept none a = refl
kept (some []) a = refl
kept (some (c ∷ cs)) a = refl

optional-Sends :
    (d : Option SseDelta) (a : Accumulator) → Sends a.first_chunk_sent (add_optional d a)
optional-Sends none a = refl
optional-Sends (some d) a =
    subst (λ b. Sends b (add_delta d (keep_calls d.tool_calls a))) (kept d.tool_calls a)
      (delta-Sends d (keep_calls d.tool_calls a))

Later-append :
    (o : Option StreamChunk) (cs : List StreamChunk)
    → Later (sent o)
    → Later cs
    → Later (sent o ++ cs)
Later-append none cs h k = k
Later-append (some c) cs h k = (h.0, k)

after_first :
    (r : Option StreamChunk × Accumulator)
    → Sends true r
    → Later (sent r.0) × (r.1.first_chunk_sent ≡ true)
after_first (none, b) h = (tt, h)
after_first (some c, b) h = ((h.0, tt), h.1)

all-Later :
    (cs : List SseChoice) (a : Accumulator)
    → a.first_chunk_sent ≡ true
    → Later (add_all cs a).0 × ((add_all cs a).1.first_chunk_sent ≡ true)
unfolding add_all add_chunk
all-Later [] a h = (tt, h)
all-Later (c ∷ cs) a h =
    let s = after_first (add_chunk c a) (
      subst (λ b. Sends b (add_chunk c a)) h
        (optional-Sends c.delta (keep_reason c.finish_reason a))) in
    let r = all-Later cs (add_chunk c a).1 s.1 in
    (Later-append (add_chunk c a).0 (add_all cs (add_chunk c a).1).0 s.0 r.0, r.1)

first_sent :
    (cs : List SseChoice) (r : Option StreamChunk × Accumulator)
    → Sends false r
    → ((a : Accumulator)
        → a.first_chunk_sent ≡ false
        → FirstOnly (add_all cs a).0 (get_final_output (add_all cs a).1))
    → FirstOnly (sent r.0 ++ (add_all cs r.1).0) (get_final_output (add_all cs r.1).1)
unfolding get_final_output
first_sent cs (none, b) h rest = rest b h
first_sent cs (some c, b) h rest = let l = all-Later cs b h.1 in (h.0, l.0, ap not l.1)

all-FirstOnly :
    (cs : List SseChoice) (a : Accumulator)
    → a.first_chunk_sent ≡ false
    → FirstOnly (add_all cs a).0 (get_final_output (add_all cs a).1)
unfolding add_all add_chunk get_final_output
all-FirstOnly [] a h = ap not h
all-FirstOnly (c ∷ cs) a h =
    first_sent cs (add_chunk c a)
      (subst (λ b. Sends b (add_chunk c a)) h
        (optional-Sends c.delta (keep_reason c.finish_reason a)))
      (all-FirstOnly cs)

-- Of the messages that a stream sends (its chunks, then its final result) exactly the first one is
-- flagged as the first chunk, whether or not all chunks are streamed.
pub add_all-FirstOnly :
    (cs : List SseChoice) (query_id : String) (stream_all : Bool)
    → let r = add_all cs (new_accumulator query_id stream_all) in
      FirstOnly r.0 (get_final_output r.1)
add_all-FirstOnly cs query_id stream_all =
    all-FirstOnly cs (new_accumulator query_id stream_all) refl

-- The texts that a stream counts, in the order of arrival: of each delta its content or, where it has
-- none, its reasoning.
abbrev pub arrivals : List SseChoice → List String
arrivals [] = []
arrivals (c ∷ cs) = (content_part c.delta ++ reasoning_part c.delta) ++ arrivals cs

abbrev pub texts_of : List StreamChunk → List String
texts_of = map (λ (c : StreamChunk). c.response_chunk)

abbrev Streams : List String → Option StreamChunk × Accumulator → Type 0
Streams ts (o, b) = (join (texts_of (sent o)) ≡ join ts) × (b.stream_all_chunks ≡ true)

emit-Streams :
    (text : String) (a : Accumulator)
    → a.stream_all_chunks ≡ true
    → Streams (text ∷ []) (emit text a)
unfolding emit
emit-Streams text a all = elim (Bool-cases (a.stream_all_chunks || not a.first_chunk_sent)) [
  | inl sends ↦ rw sends (refl, all)
  | inr keeps ↦ absurd (ground (arith, keeps, all))
]

delta-Streams :
    (d : SseDelta) (a : Accumulator)
    → a.stream_all_chunks ≡ true
    → Streams (content_part (some d) ++ reasoning_part (some d)) (add_delta d a)
unfolding add_delta join
delta-Streams d a all = elim (Bool-cases (given d.content)) [
  | inl said ↦ rw said (emit-Streams (text_of d.content) _ all)
  | inr silent ↦ elim (Bool-cases (given (or_else d.reasoning_content d.reasoning))) [
    | inl reasons ↦ rw (silent, reasons) (emit-Streams _ _ all)
    | inr empty ↦
        rw (silent, empty)
          (elim (Bool-cases (has_calls d.tool_calls && not a.first_chunk_sent)) [
            | inl first ↦ rw first (append_text_nil "", all)
            | inr later ↦ rw later (refl, all)
          ])
  ]
]

streamed_calls :
    (t : Option (List ToolCall)) (a : Accumulator)
    → a.stream_all_chunks ≡ true
    → (keep_calls t a).stream_all_chunks ≡ true
streamed_calls none a all = all
streamed_calls (some []) a all = all
streamed_calls (some (c ∷ cs)) a all = all

optional-Streams :
    (d : Option SseDelta) (a : Accumulator)
    → a.stream_all_chunks ≡ true
    → Streams (content_part d ++ reasoning_part d) (add_optional d a)
optional-Streams none a all = (refl, all)
optional-Streams (some d) a all =
    delta-Streams d (keep_calls d.tool_calls a) (streamed_calls d.tool_calls a all)

texts_of-append : (xs ys : List StreamChunk) → texts_of (xs ++ ys) ≡ texts_of xs ++ texts_of ys
texts_of-append [] ys = refl
texts_of-append (x ∷ xs) ys = ap (λ l. x.response_chunk ∷ l) (texts_of-append xs ys)

all-Streams :
    (cs : List SseChoice) (a : Accumulator)
    → a.stream_all_chunks ≡ true
    → join (texts_of (add_all cs a).0) ≡ join (arrivals cs)
unfolding add_all add_chunk
all-Streams [] a all = refl
all-Streams (c ∷ cs) a all =
    let h = optional-Streams c.delta (keep_reason c.finish_reason a) all in
    let more = (add_all cs (add_chunk c a).1).0 in
    ap join (texts_of-append (sent (add_chunk c a).0) more)
    ∙ join-append (texts_of (sent (add_chunk c a).0)) (texts_of more)
    ∙ ap (λ s. str_append s (join (texts_of more))) h.0
    ∙ ap (str_append (join (content_part c.delta ++ reasoning_part c.delta)))
        (all-Streams cs (add_chunk c a).1 h.1)
    ∙ sym (join-append (content_part c.delta ++ reasoning_part c.delta) (arrivals cs))

-- Where all chunks are streamed, the chunks that are sent hold, joined, in the order of arrival, the
-- content of every delta that has one and the reasoning of every delta without content. The reasoning
-- of a delta that has both is not sent.
pub add_all-arrivals :
    (cs : List SseChoice) (query_id : String)
    → join (texts_of (add_all cs (new_accumulator query_id true)).0) ≡ join (arrivals cs)
add_all-arrivals cs query_id = all-Streams cs (new_accumulator query_id true) refl
