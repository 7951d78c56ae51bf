-- ===== src/Client/Sse/Reads.antt =====
-- endpoint_client/worker.py: the decoded events do not depend on how the network cuts the stream.
use mathlib.Core.Path.{subst}
use mathlib.Core.List.{append-nil, append_assoc}
use endpoints.Base.{
  ℕ, suc, ◌+◌, ◌≡◌, refl, sym, ◌∙◌, ap, Option, List, [], ◌∷◌, ◌++◌, inl, inr, length, take, drop,
  arith, Option-cases,
}
use endpoints.Client.Sse.{
  newline, last_delimiter, find_all, Decoded, skipped, malformed, decoded, collect, decode_all,
  next_batch, parse_sse_chunk, concat, iter_sse_lines,
}
use endpoints.Client.Sse.Find.{Event, documents_of, documents, AreEvents, print, find_all-print}
use endpoints.Client.Sse.Cuts.{delimiter_at, cut, find_all-trimmed}

documents-append : (xs ys : List Event) → documents (xs ++ ys) ≡ documents xs ++ documents ys
documents-append [] ys = refl
documents-append (x ∷ xs) ys =
    ap (λ l. documents_of x ++ l) (documents-append xs ys)
    ∙ sym (append_assoc (documents_of x) (documents xs) (documents ys))

AreEvents-append : (xs ys : List Event) → AreEvents (xs ++ ys) → AreEvents xs × AreEvents ys
AreEvents-append [] ys h = (tt, h)
AreEvents-append (x ∷ xs) ys h = let r = AreEvents-append xs ys h.1 in ((h.0, r.0), r.1)

-- the bytes of all reads
abbrev pub received : List (List (List ℕ)) → List ℕ
received [] = []
received (r ∷ rs) = concat r ++ received rs

take-all : (bs : List ℕ) → take (length bs) bs ≡ bs
take-all [] = refl
take-all (b ∷ bs) = ap (λ l. b ∷ l) (take-all bs)

module _ {C : Type 0} (decode : List ℕ → Decoded C) where
  abbrev pub Readable : Decoded C → Type 0
  Readable malformed = ⊥
  Readable skipped = Unit {0}
  Readable (decoded c) = Unit {0}

  abbrev pub AreReadable : List (List ℕ) → Type 0
  AreReadable [] = Unit {0}
  AreReadable (d ∷ ds) = Readable (decode d) × AreReadable ds

  AreReadable-append :
      (xs ys : List (List ℕ)) → AreReadable (xs ++ ys) → AreReadable xs × AreReadable ys
  AreReadable-append [] ys h = (tt, h)
  AreReadable-append (x ∷ xs) ys h = let r = AreReadable-append xs ys h.1 in ((h.0, r.0), r.1)

  collect-append :
      (d : Decoded C) (xs ys : List C)
      → Readable d
      → collect decode d (xs ++ ys) ≡ collect decode d xs ++ ys
  collect-append skipped xs ys h = refl
  collect-append malformed xs ys h = absurd h
  collect-append (decoded c) xs ys h = refl

  decode_all-append :
      (xs ys : List (List ℕ))
      → AreReadable xs
      → decode_all decode (xs ++ ys) ≡ decode_all decode xs ++ decode_all decode ys
  unfolding decode_all
  decode_all-append [] ys h = refl
  decode_all-append (x ∷ xs) ys h =
      ap (collect decode (decode x)) (decode_all-append xs ys h.1)
      ∙ collect-append (decode x) (decode_all decode xs) (decode_all decode ys) h.0

  drop-two : (i : ℕ) (bs : List ℕ) → drop (i + 2) bs ≡ drop (suc (suc i)) bs
  drop-two i bs = let k : i + 2 ≡ suc (suc i) = omega arith in ap (λ n. drop n bs) k

  reads_lem :
      (reads : List (List (List ℕ))) (incomplete : List ℕ) (es : List Event)
      → AreEvents es
      → AreReadable (documents es)
      → incomplete ++ received reads ≡ print es
      → iter_sse_lines decode reads incomplete ≡ decode_all decode (documents es)
  unfolding iter_sse_lines parse_sse_chunk
  reads_lem [] incomplete es h ok e =
      ap (λ bs. decode_all decode (find_all 0 bs))
        (take-all incomplete ∙ sym (append-nil incomplete) ∙ e)
      ∙ ap (decode_all decode) (find_all-print es h)
  reads_lem (read ∷ reads) incomplete es h ok e =
      let buffer = incomplete ++ concat read in
      let whole : buffer ++ received reads ≡ print es =
        append_assoc incomplete (concat read) (received reads) ∙ e in
      let step = λ (o : Option ℕ). next_batch decode o buffer (iter_sse_lines decode reads) in
      elim (Option-cases (last_delimiter buffer)) [
        | inl missing ↦ ap step missing ∙ reads_lem reads buffer es h ok whole
        | inr (i, at) ↦
            let seg = take i buffer in
            let r = drop (suc (suc i)) buffer ++ received reads in
            let c = cut es seg r h (
              sym
                (append_assoc seg (newline ∷ newline ∷ drop (suc (suc i)) buffer) (received reads))
              ∙ ap (λ bs. bs ++ received reads) (sym (delimiter_at buffer i at))
              ∙ whole) in
            let first = c.head ∷ c.more in
            let split = ap documents c.whole ∙ documents-append first c.rest in
            let hs = AreEvents-append first c.rest (subst AreEvents c.whole h) in
            let oks =
              AreReadable-append (documents first) (documents c.rest)
                (subst AreReadable split ok) in
            let later =
              reads_lem reads (drop (i + 2) buffer) c.rest hs.1 oks.1
                (ap (λ bs. bs ++ received reads) (drop-two i buffer) ∙ c.after) in
            ap step at
            ∙ ap (λ l. l ++ iter_sse_lines decode reads (drop (i + 2) buffer))
                (ap (λ bs. decode_all decode (find_all 0 bs)) c.before
                  ∙ ap (decode_all decode) (find_all-trimmed c.head c.more hs.0))
            ∙ ap (λ l. decode_all decode (documents first) ++ l) later
            ∙ sym (decode_all-append (documents first) (documents c.rest) oks.0)
            ∙ ap (decode_all decode) (sym split)
      ]

  -- For a body that is a stream of events, each `data: ` with a document on one line or the end mark, whose
  -- documents the decoder accepts, the worker yields the decoded documents in their order, without
  -- those that decode to None, however the network cuts the body into reads and the reads into chunks.
  pub iter_sse_lines-print :
      (reads : List (List (List ℕ))) (es : List Event)
      → AreEvents es
      → AreReadable (documents es)
      → received reads ≡ print es
      → iter_sse_lines decode reads [] ≡ decode_all decode (documents es)
  iter_sse_lines-print reads es h ok e = reads_lem reads [] es h ok e
