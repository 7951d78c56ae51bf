-- ===== src/Client/Generate/Deltas.antt =====
-- sglang/accumulator.py: the chunks of a growing text are its parts.
use mathlib.Core.Path.{subst}
use endpoints.Base.{
  ℕ, suc, ◌+◌, Bool, true, false, ◌&&◌, ◌||◌, not, ◌≡◌, refl, sym, ap, ◌∙◌, Option, none, some,
  List, [], ◌∷◌, ◌++◌, String, ◌==◌, ltb, lt→ltb, if◌then◌else◌, if_true, if_false, length, drop,
  length-append, arith,
}
use endpoints.Client.Generate.{
  Text, SglangDelta, GeneratedChunk, SglangAccumulator, new_sglang, has_text, text_diff, absorbed,
  chunk_of, add_generated, get_generated, sent_chunk, add_deltas,
}

-- A stream in which the text grows: each delta adds its part of the text and some tokens.
pub record Growth : Type 0 where
  pub added : Text
  pub tokens : List ℕ
  pub more : ℕ
  pub retracts : Bool

-- the deltas of the growth after `text` and `total` tokens
abbrev pub deltas : Text → ℕ → List Growth → List SglangDelta
deltas text total [] = []
deltas text total (g ∷ gs) =
    record {
      text = text ++ g.added;
      token_delta = g.tokens;
      total_completion_tokens = suc (total + g.more);
      has_retractions = g.retracts;
    }
    ∷ deltas (text ++ g.added) (suc (total + g.more)) gs

abbrev pub grown : List Growth → Text
grown [] = []
grown (g ∷ gs) = g.added ++ grown gs

abbrev pub grown_tokens : List Growth → List ℕ
grown_tokens [] = []
grown_tokens (g ∷ gs) = g.tokens ++ grown_tokens gs

abbrev pub chunk_texts : List GeneratedChunk → Text
chunk_texts [] = []
chunk_texts (c ∷ cs) = c.response_chunk ++ chunk_texts cs

append_assoc : {A : Type 0} (xs ys zs : List A) → (xs ++ ys) ++ zs ≡ xs ++ (ys ++ zs)
append_assoc [] ys zs = refl
append_assoc (x ∷ xs) ys zs = ap (λ l. x ∷ l) (append_assoc xs ys zs)

append_nil : {A : Type 0} (xs : List A) → xs ++ [] ≡ xs
append_nil [] = refl
append_nil (x ∷ xs) = ap (λ l. x ∷ l) (append_nil xs)

drop-append : (xs ys : Text) → drop (length xs) (xs ++ ys) ≡ ys
drop-append [] ys = refl
drop-append (x ∷ xs) ys = drop-append xs ys

diff-append : (old added : Text) → text_diff old (old ++ added) ≡ added
diff-append old [] =
    if_false _ _ _ (ltb_same (length old) (length (old ++ [])) (ap length (append_nil old)))
  where
    ltb_same : (m n : ℕ) → n ≡ m → ltb m n ≡ false
    ltb_same m n e = ground arith
diff-append old (x ∷ xs) =
    let e = length-append old (x ∷ xs) in
    if_true _ _ _ (lt→ltb (length old) (length (old ++ x ∷ xs)) (omega (arith, e)))
    ∙ drop-append old (x ∷ xs)

not_same : (m n : ℕ) → (suc (m + n) == m) ≡ false
not_same m n = ground arith

-- one delta, where all chunks are streamed
record Grows (g : Growth) (a : SglangAccumulator) (r : Option GeneratedChunk × SglangAccumulator)
    : Type 0 where
  said : chunk_texts (sent_chunk r.0) ≡ g.added
  text : r.1.text ≡ a.text ++ g.added
  tokens : r.1.token_ids ≡ a.token_ids ++ g.tokens
  total : r.1.total_tokens ≡ suc (a.total_tokens + g.more)
  streams : r.1.stream_all_chunks ≡ true

abbrev delta_of : Growth → SglangAccumulator → SglangDelta
delta_of g a = record {
  text = a.text ++ g.added;
  token_delta = g.tokens;
  total_completion_tokens = suc (a.total_tokens + g.more);
  has_retractions = g.retracts;
}

generated-Grows :
    (g : Growth) (a : SglangAccumulator)
    → a.stream_all_chunks ≡ true
    → Grows g a (add_generated (delta_of g a) a)
unfolding add_generated
generated-Grows g a all =
    let d = delta_of g a in
    subst (Grows g a) (sym (if_false _ _ _ (not_same a.total_tokens g.more))) (
      subst
        (λ (diff : Text). Grows g a (
          if has_text diff && (a.stream_all_chunks || not a.first_chunk_sent)
          then (some (chunk_of diff d a), record (absorbed d a) { first_chunk_sent = true })
          else (none, absorbed d a)))
        (sym (diff-append a.text g.added)) (said g.added refl))
  where
    said :
        (diff : Text)
        → diff ≡ g.added
        → Grows g a (
            if has_text diff && (a.stream_all_chunks || not a.first_chunk_sent)
            then (
              some (chunk_of diff (delta_of g a) a),
              record (absorbed (delta_of g a) a) { first_chunk_sent = true },
            )
            else (none, absorbed (delta_of g a) a))
    said [] e = record { said = e; text = refl; tokens = refl; total = refl; streams = all }
    said (x ∷ xs) e =
        subst (Grows g a) (sym (if_true _ _ _ (ap (λ b. b || not a.first_chunk_sent) all)))
          (record {
            said = append_nil (x ∷ xs) ∙ e;
            text = refl;
            tokens = refl;
            total = refl;
            streams = all;
          })

chunk_texts-append :
    (xs ys : List GeneratedChunk) → chunk_texts (xs ++ ys) ≡ chunk_texts xs ++ chunk_texts ys
chunk_texts-append [] ys = refl
chunk_texts-append (x ∷ xs) ys =
    ap (λ l. x.response_chunk ++ l) (chunk_texts-append xs ys)
    ∙ sym (append_assoc x.response_chunk (chunk_texts xs) (chunk_texts ys))

-- what a stream of deltas gives, from an accumulator on
record Streams (gs : List Growth) (a : SglangAccumulator)
    (r : List GeneratedChunk × SglangAccumulator) : Type 0 where
  said : chunk_texts r.0 ≡ grown gs
  text : r.1.text ≡ a.text ++ grown gs
  tokens : r.1.token_ids ≡ a.token_ids ++ grown_tokens gs

all-Streams :
    (gs : List Growth) (a : SglangAccumulator)
    → a.stream_all_chunks ≡ true
    → Streams gs a (add_deltas (deltas a.text a.total_tokens gs) a)
unfolding add_deltas
all-Streams [] a all = record {
  said = refl;
  text = sym (append_nil a.text);
  tokens = sym (append_nil a.token_ids);
}
all-Streams (g ∷ gs) a all =
    let d = delta_of g a in
    let c = (add_generated d a).0 in
    let b = (add_generated d a).1 in
    let h = generated-Grows g a all in
    let k = all-Streams gs b h.streams in
    let same : deltas b.text b.total_tokens gs
        ≡ deltas (a.text ++ g.added) (suc (a.total_tokens + g.more)) gs =
      ap (λ t. deltas t b.total_tokens gs) h.text
      ∙ ap (λ n. deltas (a.text ++ g.added) n gs) h.total in
    let more = (add_deltas (deltas b.text b.total_tokens gs) b).0 in
    subst
      (λ (ds : List SglangDelta).
        Streams (g ∷ gs) a (sent_chunk c ++ (add_deltas ds b).0, (add_deltas ds b).1))
      same
      (record {
        said =
            chunk_texts-append (sent_chunk c) more
            ∙ ap (λ l. l ++ chunk_texts more) h.said
            ∙ ap (λ l. g.added ++ l) k.said;
        text = k.text ∙ ap (λ l. l ++ grown gs) h.text ∙ append_assoc a.text g.added (grown gs);
        tokens =
            k.tokens
            ∙ ap (λ l. l ++ grown_tokens gs) h.tokens
            ∙ append_assoc a.token_ids g.tokens (grown_tokens gs);
      })

-- For a stream in which the text grows and each event counts more tokens, the chunks of a client that
-- streams all of them hold, joined, exactly the final text, and the final result has that text and the
-- tokens of all events in order.
pub add_deltas-grown :
    (gs : List Growth) (query_id : String)
    → let r = add_deltas (deltas [] 0 gs) (new_sglang query_id true) in
      (chunk_texts r.0 ≡ grown gs)
      × ((get_generated r.1).output ≡ grown gs)
      × ((get_generated r.1).token_ids ≡ grown_tokens gs)
unfolding get_generated
add_deltas-grown gs query_id =
    let h = all-Streams gs (new_sglang query_id true) refl in (h.said, h.text, h.tokens)
