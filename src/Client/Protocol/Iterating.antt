-- ===== src/Client/Protocol/Iterating.antt =====
-- endpoint_client/http.py, `iter_body`, and worker.py, `_iter_sse_lines`, which reads its lists.
use mathlib.Core.Path.{subst}
use endpoints.Base.{
  ℕ, Bool, true, false, ◌||◌, not, ◌≡◌, refl, sym, ap, ◌∙◌, List, [], ◌∷◌, ◌++◌, if_true, if_false,
  if_both,
}
use endpoints.Client.Sse.{concat, iter_sse_lines, decode_all, Decoded}
use endpoints.Client.Sse.Find.{Event, AreEvents, print, documents}
use endpoints.Client.Sse.Reads.{received, AreReadable, iter_sse_lines-print}
use endpoints.Client.Protocol.{
  Bytes, Protocol, connection_lost, eof_received, on_body, on_message_complete, Iteration, yielded,
  drain, iter_body, resume_iteration,
}
use endpoints.Client.Protocol.Reading.{
  End, completes, loses, half_closes, end_of, append_assoc, append_nil, concat-append,
}

-- What happens before the end of a streamed body: a chunk arrives, or the iterator is scheduled.
pub data Piece : Type 0 where
  arrives : Bytes → Piece
  scheduled : Piece

abbrev pub bodies : List Piece → Bytes
bodies [] = []
bodies (arrives b ∷ ps) = b ++ bodies ps
bodies (scheduled ∷ ps) = bodies ps

abbrev pub take_piece : Piece → Iteration → Iteration
take_piece (arrives b) i = record i { protocol = on_body b i.protocol }
take_piece scheduled i = resume_iteration i

abbrev pub take_pieces : List Piece → Iteration → Iteration
take_pieces [] i = i
take_pieces (p ∷ ps) i = take_pieces ps (take_piece p i)

-- the end, and the next run of the iterator
abbrev pub finish_iteration : End → Iteration → Iteration
finish_iteration e i = resume_iteration (record i { protocol = end_of e i.protocol })

received-append : (xs ys : List (List Bytes)) → received (xs ++ ys) ≡ received xs ++ received ys
received-append [] ys = refl
received-append (x ∷ xs) ys =
    ap (λ l. concat x ++ l) (received-append xs ys)
    ∙ sym (append_assoc (concat x) (received xs) (received ys))

received-yielded : (chunks : List Bytes) → received (yielded chunks) ≡ concat chunks
received-yielded [] = refl
received-yielded (c ∷ cs) = append_nil (concat (c ∷ cs))

-- An iterator that runs, with the bytes that came so far.
record Runs (i : Iteration) (sofar : Bytes) : Type 0 where
  active : i.returned ≡ false
  streams : i.protocol.streaming ≡ true
  unfinished : i.protocol.message_complete ≡ false
  connected : i.protocol.lost ≡ false
  bytes : received i.batches ++ concat i.protocol.stream_chunks ≡ sofar

drained :
    (i : Iteration)
    → received (drain i).batches ≡ received i.batches ++ concat i.protocol.stream_chunks
unfolding drain
drained i =
    received-append i.batches (yielded i.protocol.stream_chunks)
    ∙ ap (λ l. received i.batches ++ l) (received-yielded i.protocol.stream_chunks)

drain-Runs : (i : Iteration) (sofar : Bytes) → Runs i sofar → Runs (drain i) sofar
unfolding drain
drain-Runs i sofar h = record {
  active = ap (λ b. b || i.protocol.lost) h.unfinished ∙ h.connected;
  streams = h.streams;
  unfinished = h.unfinished;
  connected = h.connected;
  bytes = append_nil (received (drain i).batches) ∙ drained i ∙ h.bytes;
}

piece-Runs :
    (p : Piece) (i : Iteration) (sofar : Bytes)
    → Runs i sofar
    → Runs (take_piece p i) (sofar ++ bodies (p ∷ []))
unfolding on_body resume_iteration
piece-Runs (arrives b) i sofar h =
    subst (λ (q : Protocol). Runs (record i { protocol = q }) (sofar ++ (b ++ [])))
      (sym (if_true _ _ _ h.streams))
      (record {
        active = h.active;
        streams = h.streams;
        unfinished = h.unfinished;
        connected = h.connected;
        bytes =
            ap (λ l. received i.batches ++ l) (concat-append i.protocol.stream_chunks (b ∷ []))
            ∙ sym (append_assoc (received i.batches) (concat i.protocol.stream_chunks) (b ++ []))
            ∙ ap (λ l. l ++ (b ++ [])) h.bytes;
      })
piece-Runs scheduled i sofar h = subst (Runs (resume_iteration i)) (sym (append_nil sofar)) (
    if_both (λ (j : Iteration). Runs j sofar) (i.returned || not i.protocol.stream_event) (λ _. h)
      (λ _. drain-Runs i sofar h))

pieces-Runs :
    (ps : List Piece) (i : Iteration) (sofar : Bytes)
    → Runs i sofar
    → Runs (take_pieces ps i) (sofar ++ bodies ps)
pieces-Runs [] i sofar h = subst (Runs i) (sym (append_nil sofar)) h
pieces-Runs (arrives b ∷ ps) i sofar h =
    subst (Runs (take_pieces ps (take_piece (arrives b) i)))
      (ap (λ l. (sofar ++ l) ++ bodies ps) (append_nil b) ∙ append_assoc sofar b (bodies ps))
      (pieces-Runs ps (take_piece (arrives b) i) (sofar ++ (b ++ []))
        (piece-Runs (arrives b) i sofar h))
pieces-Runs (scheduled ∷ ps) i sofar h =
    subst (Runs (take_pieces ps (resume_iteration i))) (ap (λ l. l ++ bodies ps) (append_nil sofar))
      (pieces-Runs ps (resume_iteration i) (sofar ++ []) (piece-Runs scheduled i sofar h))

-- What the end of the body leaves for the iterator.
record Ends (p q : Protocol) : Type 0 where
  event : q.stream_event ≡ true
  over : (q.message_complete || q.lost) ≡ true
  chunks : q.stream_chunks ≡ p.stream_chunks

or_true : (b : Bool) → (b || true) ≡ true
or_true true = refl
or_true false = refl

end-Ends : (e : End) (p : Protocol) → p.streaming ≡ true → Ends p (end_of e p)
unfolding on_message_complete connection_lost eof_received
end-Ends completes p h =
    subst (Ends p) (sym (if_true _ _ _ h)) (record { event = refl; over = refl; chunks = refl })
end-Ends (loses e) p h =
    subst (Ends p) (sym (if_true _ _ _ h))
      (record { event = refl; over = or_true p.message_complete; chunks = refl })
end-Ends half_closes p h =
    subst (Ends p) (sym (if_true _ _ _ h))
      (record { event = refl; over = or_true p.message_complete; chunks = refl })

drain-returns :
    (i : Iteration)
    → (i.protocol.message_complete || i.protocol.lost) ≡ true
    → (drain i).returned ≡ true
unfolding drain
drain-returns i h = h

begun-Runs :
    (p : Protocol)
    → p.message_complete ≡ false
    → p.lost ≡ false
    → p.stream_chunks ≡ []
    → Runs (iter_body p) (concat p.body_chunks)
unfolding iter_body drain
begun-Runs p unfinished connected empty =
    subst (λ (i : Iteration). Runs i (concat p.body_chunks)) (sym (if_false _ _ _ unfinished))
      (record {
        active = ap (λ b. b || p.lost) unfinished ∙ connected;
        streams = refl;
        unfinished = unfinished;
        connected = connected;
        bytes =
            append_nil (received (yielded p.body_chunks ++ yielded p.stream_chunks))
            ∙ received-append (yielded p.body_chunks) (yielded p.stream_chunks)
            ∙ ap (λ l. received (yielded p.body_chunks) ++ received (yielded l)) empty
            ∙ append_nil (received (yielded p.body_chunks))
            ∙ received-yielded p.body_chunks;
      })

finish-Returns :
    (e : End) (i : Iteration) (sofar : Bytes)
    → Runs i sofar
    → ((finish_iteration e i).returned ≡ true) × (received (finish_iteration e i).batches ≡ sofar)
unfolding resume_iteration
finish-Returns e i sofar h =
    let n = end-Ends e i.protocol h.streams in
    let j = record i { protocol = end_of e i.protocol } in
    subst (λ (k : Iteration). (k.returned ≡ true) × (received k.batches ≡ sofar))
      (sym (if_false _ _ _ (ap (λ b. b || not j.protocol.stream_event) h.active ∙ ap not n.event)))
      (
        drain-returns j n.over,
        drained j ∙ ap (λ l. received i.batches ++ concat l) n.chunks ∙ h.bytes,
      )

-- However the chunks of a streamed body arrive between the runs of the iterator, at the end of the body
-- the iterator returns, and its lists hold all the bytes in order, those buffered before it began first.
-- The end is the complete message, a lost connection or a half-close: all three look the same to it.
pub iter_body-bytes :
    (p : Protocol) (ps : List Piece) (e : End)
    → p.message_complete ≡ false
    → p.lost ≡ false
    → p.stream_chunks ≡ []
    → let i = finish_iteration e (take_pieces ps (iter_body p)) in
      (i.returned ≡ true) × (received i.batches ≡ concat p.body_chunks ++ bodies ps)
iter_body-bytes p ps e unfinished connected empty =
    finish-Returns e (take_pieces ps (iter_body p)) (concat p.body_chunks ++ bodies ps) (
      pieces-Runs ps (iter_body p) (concat p.body_chunks) (begun-Runs p unfinished connected empty))

module _ {C : Type 0} (decode : List ℕ → Decoded C) where
  -- Where that body is a stream of events whose documents the decoder accepts, the worker yields the decoded
  -- documents in their order, for every interleaving of the network and the worker.
  pub streamed-documents :
      (p : Protocol) (ps : List Piece) (e : End) (es : List Event)
      → p.message_complete ≡ false
      → p.lost ≡ false
      → p.stream_chunks ≡ []
      → AreEvents es
      → AreReadable decode (documents es)
      → concat p.body_chunks ++ bodies ps ≡ print es
      → iter_sse_lines decode (finish_iteration e (take_pieces ps (iter_body p))).batches []
        ≡ decode_all decode (documents es)
  streamed-documents p ps e es unfinished connected empty events readable whole =
      iter_sse_lines-print decode (finish_iteration e (take_pieces ps (iter_body p))).batches es
        events readable ((iter_body-bytes p ps e unfinished connected empty).1 ∙ whole)
