-- ===== src/Client/Protocol/Reading.antt =====
-- endpoint_client/http.py: what the reads of a body give, however they interleave with its arrival.
use mathlib.Core.Path.{subst}
use endpoints.Base.{
  false, ◌≡◌, refl, sym, ap, ◌∙◌, Option, none, some, List, [], ◌∷◌, ◌++◌, if_false, if_both,
}
use endpoints.Client.Sse.{concat}
use endpoints.Client.Protocol.{
  Bytes, Failure, reset_before_body, settle, fail_with, body_at_loss, Future, waiting, resolved,
  failed, Protocol, signal_stream_end, connection_lost, eof_received, on_body, on_message_complete,
  read_body,
}

-- How a body ends: the message is complete, the connection is lost, or the server sends its last byte.
pub data End : Type 0 where
  completes : End
  loses : Option Failure → End
  half_closes : End

abbrev pub end_of : End → Protocol → Protocol
end_of completes p = on_message_complete p
end_of (loses e) p = connection_lost e p
end_of half_closes p = eof_received p

abbrev pub arrive : List Bytes → Protocol → Protocol
arrive [] p = p
arrive (b ∷ bs) p = arrive bs (on_body b p)

-- what a waiting read of the body becomes
abbrev pub outcome : End → Bytes → Future Bytes
outcome completes body = resolved body
outcome (loses none) body = failed reset_before_body
outcome (loses (some e)) body = failed e
outcome half_closes body = waiting

pub append_assoc : {A : Type 0} (xs ys zs : List A) → (xs ++ ys) ++ zs ≡ xs ++ (ys ++ zs)
append_assoc [] ys zs = refl
append_assoc (x ∷ xs) ys zs = ap (λ l. x ∷ l) (append_assoc xs ys zs)

pub append_nil : {A : Type 0} (xs : List A) → xs ++ [] ≡ xs
append_nil [] = refl
append_nil (x ∷ xs) = ap (λ l. x ∷ l) (append_nil xs)

pub concat-append : (xs ys : List Bytes) → concat (xs ++ ys) ≡ concat xs ++ concat ys
concat-append [] ys = refl
concat-append (x ∷ xs) ys =
    ap (λ l. x ++ l) (concat-append xs ys) ∙ sym (append_assoc x (concat xs) (concat ys))

-- A protocol in buffered mode with the chunks and the future given.
record Buffered (p : Protocol) (chunks : List Bytes) (f : Future Bytes) : Type 0 where
  buffering : p.streaming ≡ false
  unfinished : p.message_complete ≡ false
  chunks_are : p.body_chunks ≡ chunks
  future_is : p.body_future ≡ f

arrive-Buffered :
    (bs : List Bytes) (p : Protocol) (chunks : List Bytes) (f : Future Bytes)
    → Buffered p chunks f
    → Buffered (arrive bs p) (chunks ++ bs) f
unfolding on_body
arrive-Buffered [] p chunks f h = record {
  buffering = h.buffering;
  unfinished = h.unfinished;
  chunks_are = h.chunks_are ∙ sym (append_nil chunks);
  future_is = h.future_is;
}
arrive-Buffered (b ∷ bs) p chunks f h =
    let next : Protocol = record p { body_chunks = p.body_chunks ++ b ∷ [] } in
    subst (λ (q : Protocol). Buffered (arrive bs q) (chunks ++ b ∷ bs) f)
      (sym (if_false _ _ _ h.buffering))
      (subst (λ l. Buffered (arrive bs next) l f) (append_assoc chunks (b ∷ []) bs)
        (arrive-Buffered bs next (chunks ++ b ∷ []) f (record {
          buffering = h.buffering;
          unfinished = h.unfinished;
          chunks_are = ap (λ l. l ++ b ∷ []) h.chunks_are;
          future_is = h.future_is;
        })))

signal-body : (p : Protocol) → (signal_stream_end p).body_future ≡ p.body_future
signal-body p =
    if_both (λ (q : Protocol). q.body_future ≡ p.body_future) p.streaming (λ _. refl) (λ _. refl)

end-outcome :
    (e : End) (p : Protocol) (chunks : List Bytes)
    → Buffered p chunks waiting
    → (end_of e p).body_future ≡ outcome e (concat chunks)
unfolding on_message_complete connection_lost eof_received
end-outcome completes p chunks h =
    signal-body _
    ∙ ap (settle (concat p.body_chunks)) h.future_is
    ∙ ap (λ l. resolved (concat l)) h.chunks_are
end-outcome (loses (some e)) p chunks h = signal-body _ ∙ ap (fail_with e) h.future_is
end-outcome (loses none) p chunks h =
    signal-body _
    ∙ ap (λ b. body_at_loss none b (concat p.body_chunks) p.body_future) h.unfinished
    ∙ ap (fail_with reset_before_body) h.future_is
end-outcome half_closes p chunks h = signal-body _ ∙ h.future_is

-- A read of the body that starts while it arrives, between any two chunks, ends with the body: with all
-- its bytes in order once the message is complete, with the transport's error or with a reset if the
-- connection is lost before; after a half-close alone it waits for the loss that follows.
pub read_body-outcome :
    (p : Protocol) (before after : List Bytes) (e : End)
    → p.streaming ≡ false
    → p.message_complete ≡ false
    → (end_of e (arrive after (read_body (arrive before p)).1)).body_future
      ≡ outcome e (concat p.body_chunks ++ (concat before ++ concat after))
unfolding read_body
read_body-outcome p before after e buffering unfinished =
    let q = arrive before p in
    let b : Buffered q (p.body_chunks ++ before) p.body_future =
      arrive-Buffered before p p.body_chunks p.body_future (record {
        buffering = buffering;
        unfinished = unfinished;
        chunks_are = refl;
        future_is = refl;
      }) in
    let w = record q { body_future = waiting } in
    let k = arrive-Buffered after w (p.body_chunks ++ before) waiting (record {
      buffering = b.buffering;
      unfinished = b.unfinished;
      chunks_are = b.chunks_are;
      future_is = refl;
    }) in
    ap (λ (r : Option Bytes × Protocol). (end_of e (arrive after r.1)).body_future)
      (if_false q.message_complete (some (concat q.body_chunks), q) (none, w) b.unfinished)
    ∙ end-outcome e (arrive after w) ((p.body_chunks ++ before) ++ after) k
    ∙ ap (outcome e) (all_bytes p.body_chunks before after)
  where
    all_bytes :
        (xs ys zs : List Bytes) → concat ((xs ++ ys) ++ zs) ≡ concat xs ++ (concat ys ++ concat zs)
    all_bytes xs ys zs =
        ap concat (append_assoc xs ys zs)
        ∙ concat-append xs (ys ++ zs)
        ∙ ap (λ l. concat xs ++ l) (concat-append ys zs)
