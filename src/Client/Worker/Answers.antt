-- ===== src/Client/Worker/Answers.antt =====
-- endpoint_client/worker.py: the answers to a query, and its connection afterwards.
use mathlib.Core.Path.{subst}
use endpoints.Base.{
  ℕ, Bool, true, false, ◌&&◌, ◌||◌, not, ◌≡◌, refl, sym, ap, ◌∙◌, ◌⊎◌, inl, inr, Option, none, some,
  List, [], ◌∷◌, ◌++◌, String, ◌==◌, eq→==, if◌then◌else◌, if_true, if_false, if_both, Bool-cases,
  is_some,
}
use endpoints.Core.Output.{ErrorData, ToolCall}
use endpoints.Client.Accumulator.{
  SseDelta, SseChoice, StreamChunk, Accumulator, emit, add_delta, or_else, given, text_of,
  has_calls, keep_calls, add_optional, keep_reason, add_chunk, add_all,
}
use endpoints.Client.Pool.{
  Connection, Pool, is_alive, should_close, close_connection, notify_waiter, notified, returned,
  update, release,
}
use endpoints.Client.Worker.{
  Raised, Awaited, value, raises, Reply, reply, InFlightRequest, Worker, send_message, handle_error,
  chunks_of, Response,
}

-- A connection that nobody uses, or that is being closed.
abbrev pub IsFree : ℕ → Pool → Type 0
IsFree i p = ((p.conn i).in_use ≡ false) ⊎ ((p.conn i).closing ≡ true)

updated : (i : ℕ) (c : Connection) (f : ℕ → Connection) → update i c f i ≡ c
updated i c f = if_true _ _ _ (eq→== i i refl)

notify-IsFree : (i : ℕ) (p : Pool) → IsFree i p → IsFree i (notify_waiter p)
unfolding notify_waiter
notify-IsFree i p h = go p.waiters
  where
    go : (ws : List ℕ) → IsFree i (notified ws p)
    go [] = h
    go (w ∷ ws) = h

-- After `release`, whatever the state of the connection was.
pub release-IsFree : (i now : ℕ) (p : Pool) → IsFree i (release i now p)
unfolding release close_connection
release-IsFree i now p = elim (Bool-cases (p.conn i).in_use) [
  | inl used ↦ subst (IsFree i) (sym (if_false _ _ _ (ap not used))) (
      if_both (IsFree i) (not (is_alive (p.conn i)) || should_close (p.conn i))
        (λ _.
          notify-IsFree i (close_connection i p)
            (inr (ap (λ (c : Connection). c.closing) (updated i _ p.conn))))
        (λ _.
          notify-IsFree i (returned i now p)
            (inl (ap (λ (c : Connection). c.in_use) (updated i _ p.conn)))))
  | inr unused ↦ subst (IsFree i) (sym (if_true _ _ _ (ap not unused))) (inl unused)
]

-- The accumulator keeps the query of its stream.
emit-query_id : (text : String) (a : Accumulator) → (emit text a).1.query_id ≡ a.query_id
unfolding emit
emit-query_id text a =
    if_both (λ (r : Option StreamChunk × Accumulator). r.1.query_id ≡ a.query_id)
      (a.stream_all_chunks || not a.first_chunk_sent) (λ _. refl) (λ _. refl)

delta-query_id : (d : SseDelta) (a : Accumulator) → (add_delta d a).1.query_id ≡ a.query_id
unfolding add_delta
delta-query_id d a =
    let P = λ (r : Option StreamChunk × Accumulator). r.1.query_id ≡ a.query_id in
    let reasoning = or_else d.reasoning_content d.reasoning in
    if_both P (given d.content)
      (λ _.
        emit-query_id (text_of d.content)
          (record a { output_chunks = a.output_chunks ++ text_of d.content ∷ [] }))
      (λ _.
        if_both P (given reasoning)
          (λ _.
            emit-query_id (text_of reasoning)
              (record a { reasoning_chunks = a.reasoning_chunks ++ text_of reasoning ∷ [] }))
          (λ _.
            if_both P (has_calls d.tool_calls && not a.first_chunk_sent) (λ _. refl) (λ _. refl)))

keep_calls-query_id :
    (t : Option (List ToolCall)) (a : Accumulator) → (keep_calls t a).query_id ≡ a.query_id
keep_calls-query_id none a = refl
keep_calls-query_id (some []) a = refl
keep_calls-query_id (some (c ∷ cs)) a = refl

optional-query_id :
    (d : Option SseDelta) (a : Accumulator) → (add_optional d a).1.query_id ≡ a.query_id
optional-query_id none a = refl
optional-query_id (some d) a =
    delta-query_id d (keep_calls d.tool_calls a) ∙ keep_calls-query_id d.tool_calls a

pub all-query_id : (cs : List SseChoice) (a : Accumulator) → (add_all cs a).1.query_id ≡ a.query_id
unfolding add_all add_chunk
all-query_id [] a = refl
all-query_id (c ∷ cs) a =
    all-query_id cs (add_chunk c a).1 ∙ optional-query_id c.delta (keep_reason c.finish_reason a)

-- What makes a request fail, of all that it awaits.
abbrev pub decoding_failed : Awaited Reply → Bool
decoding_failed (raises e) = true
decoding_failed (value r) = is_some r.error

abbrev pub reading_failed : Awaited (List ℕ) → Awaited Reply → Bool
reading_failed (raises e) decoded = true
reading_failed (value b) decoded = decoding_failed decoded

abbrev pub response_failed : Bool → Awaited ℕ → Response → Bool
response_failed streaming (raises e) r = true
response_failed streaming (value status) r =
    if not (status == 200)
    then true
    else if streaming
    then is_some r.stream.ending
    else reading_failed r.body r.decoded

abbrev pub request_failed : InFlightRequest → Awaited ℕ → Option Raised → Response → Bool
request_failed q (raises e) write_raises r = true
request_failed q (value i) (some e) r = true
request_failed q (value i) none r = response_failed q.is_streaming r.status r

-- One answer after the chunks of a stream.
pub record Answered (id : String) (failed : Bool) (w v : Worker) : Type 0 where
  pub chunks : List StreamChunk
  pub last : Reply
  pub sent : v.sent ≡ w.sent ++ (chunks_of chunks ++ reply last ∷ [])
  pub names : last.id ≡ id
  pub from : last.worker_id ≡ some w.worker_id
  pub fails : is_some last.error ≡ failed

-- chunks of a stream without an answer yet
pub record Partial (w v : Worker) : Type 0 where
  pub running : v.shutdown ≡ false
  pub open_end : v.connected ≡ true
  pub same_worker : v.worker_id ≡ w.worker_id
  pub chunks : List StreamChunk
  pub sent : v.sent ≡ w.sent ++ chunks_of chunks

pub append_nil : {A : Type 0} (xs : List A) → xs ++ [] ≡ xs
append_nil [] = refl
append_nil (x ∷ xs) = ap (λ l. x ∷ l) (append_nil xs)

pub append_assoc : {A : Type 0} (xs ys zs : List A) → (xs ++ ys) ++ zs ≡ xs ++ (ys ++ zs)
append_assoc [] ys zs = refl
append_assoc (x ∷ xs) ys zs = ap (λ l. x ∷ l) (append_assoc xs ys zs)

pub send-Answered :
    (id : String) (failed : Bool) (r : Reply) (w v : Worker)
    → Partial w v
    → r.id ≡ id
    → r.worker_id ≡ some w.worker_id
    → is_some r.error ≡ failed
    → Answered id failed w (send_message (reply r) v)
unfolding send_message
send-Answered id failed r w v p names from fails = record {
  chunks = p.chunks;
  last = r;
  sent =
      ap (λ l. l ++ reply r ∷ []) p.sent ∙ append_assoc w.sent (chunks_of p.chunks) (reply r ∷ []);
  names = names;
  from = from;
  fails = fails;
}

pub error-Answered :
    (id : String) (e : ErrorData) (w v : Worker)
    → Partial w v
    → Answered id true w (handle_error id e v)
unfolding handle_error
error-Answered id e w v p =
    subst (Answered id true w)
      (sym (if_false _ _ _ (ap (λ b. b || not v.connected) p.running ∙ ap not p.open_end)))
      (send-Answered id true _ w v p refl (ap some p.same_worker) refl)
