-- ===== src/Client/Worker/Serving.antt =====
-- endpoint_client/worker.py: every query is answered once.
use mathlib.Core.Path.{subst}
use endpoints.Base.{
  ℕ, Bool, true, false, not, ◌≡◌, refl, sym, Option, none, some, List, [], ◌++◌, String, ◌==◌,
  if◌then◌else◌, if_false, if_both, ◌||◌, is_some,
}
use endpoints.Core.Output.{ErrorData}
use endpoints.Client.Accumulator.{
  StreamChunk, Accumulator, new_accumulator, add_all, get_final_output,
}
use endpoints.Client.Pool.{Pool}
use endpoints.Client.Worker.{
  Raised, Awaited, value, raises, Reply, InFlightRequest, Worker, of_exception, handle_error,
  with_worker_id, release_connection, fired, Firing, fire_request, Streamed, chunks_of, reply_of,
  finish_stream, handle_streaming_body, Response, handle_body, handle_status, attempt, concluded,
  process_response, processed, serve,
}
use endpoints.Client.Worker.Answers.{
  IsFree, release-IsFree, all-query_id, reading_failed, response_failed, request_failed, Answered,
  Partial, append_nil, send-Answered, error-Answered,
}

both_branches {ℓ κ μ} :
    {A : Type ℓ} {B : Type κ} (P : A → B → Type μ) (b : Bool) {x y : A} {u v : B}
    → (b ≡ true → P x u)
    → (b ≡ false → P y v)
    → P (if b then x else y) (if b then u else v)
both_branches P true f g = f refl
both_branches P false f g = g refl

-- the pool is no part of an answer
unpooled :
    (id : String) (failed : Bool) {w : Worker} (v : Worker) (p : Pool)
    → Answered id failed w v
    → Answered id failed w (record v { pool = p })
unpooled id failed v p h = record {
  chunks = h.chunks;
  last = h.last;
  sent = h.sent;
  names = h.names;
  from = h.from;
  fails = h.fails;
}

unpooled_before :
    (id : String) (failed : Bool) (w : Worker) (p : Pool) (v : Worker)
    → Answered id failed (record w { pool = p }) v
    → Answered id failed w v
unpooled_before id failed w p v h = record {
  chunks = h.chunks;
  last = h.last;
  sent = h.sent;
  names = h.names;
  from = h.from;
  fails = h.fails;
}

-- the `try` block: an answer, or an exception before one
abbrev Attempted : String → Bool → Worker → Option Raised × Worker → Type 0
Attempted id failed w (none, v) = Answered id failed w v
Attempted id failed w (some e, v) = Partial w v × (failed ≡ true)

module _ (w : Worker) (running : w.shutdown ≡ false) (open_end : w.connected ≡ true) where
  started : Partial w w
  started = record {
    running = running;
    open_end = open_end;
    same_worker = refl;
    chunks = [];
    sent = sym (append_nil w.sent);
  }

  freed : (i now : ℕ) → Partial w (release_connection i now w)
  freed i now = record {
    running = running;
    open_end = open_end;
    same_worker = refl;
    chunks = [];
    sent = sym (append_nil w.sent);
  }

  stream-Attempted :
      (id : String) (i now : ℕ) (body : Streamed)
      → Attempted id (is_some body.ending) w (handle_streaming_body id i now body w)
  unfolding handle_streaming_body get_final_output
  stream-Attempted id i now body = go body.ending
    where
      a : Accumulator
      a = (add_all body.choices (new_accumulator id w.stream_all_chunks)).1

      cs : List StreamChunk
      cs = (add_all body.choices (new_accumulator id w.stream_all_chunks)).0

      v : Worker
      v = record w { sent = w.sent ++ chunks_of cs }

      go : (e : Option Raised) → Attempted id (is_some e) w (finish_stream i now e a v)
      go (some e) = (
        record {
          running = running;
          open_end = open_end;
          same_worker = refl;
          chunks = cs;
          sent = refl;
        },
        refl,
      )
      go none =
          send-Answered id false (with_worker_id w.worker_id (reply_of (get_final_output a))) w
            (release_connection i now v)
            (record {
              running = running;
              open_end = open_end;
              same_worker = refl;
              chunks = cs;
              sent = refl;
            })
            (all-query_id body.choices (new_accumulator id w.stream_all_chunks)) refl refl

  body-Attempted :
      (id : String) (i now : ℕ) (body : Awaited (List ℕ)) (decoded : Awaited Reply)
      → ((d : Reply) → decoded ≡ value d → d.id ≡ id)
      → Attempted id (reading_failed body decoded) w (handle_body i now body decoded w)
  body-Attempted id i now (raises e) decoded named = (started, refl)
  body-Attempted id i now (value b) (raises e) named = (freed i now, refl)
  body-Attempted id i now (value b) (value d) named =
      send-Answered id (is_some d.error) (with_worker_id w.worker_id d) w
        (release_connection i now w) (freed i now) (named d refl) refl refl

  module _ (decode_text : List ℕ → String) (str : ℕ → String) where
    status-Attempted :
        (id : String) (i now status : ℕ) (body : Awaited (List ℕ))
        → Attempted id true w (handle_status decode_text str id i now status body w)
    status-Attempted id i now status (raises e) = (started, refl)
    status-Attempted id i now status (value b) =
        error-Answered id _ w (release_connection i now w) (freed i now)

    attempt-Attempted :
        (q : InFlightRequest) (i now : ℕ) (status : Awaited ℕ) (r : Response)
        → ((d : Reply) → r.decoded ≡ value d → d.id ≡ q.query_id)
        → Attempted q.query_id
            (response_failed q.is_streaming status r)
            w
            (attempt decode_text str q i now status r w)
    attempt-Attempted q i now (raises e) r named = (started, refl)
    attempt-Attempted q i now (value status) r named =
        both_branches (λ f x. Attempted q.query_id f w x) (not (status == 200))
          (λ _. status-Attempted q.query_id i now status r.body)
          (λ _.
            both_branches (λ f x. Attempted q.query_id f w x) q.is_streaming
              (λ _. stream-Attempted q.query_id i now r.stream)
              (λ _. body-Attempted q.query_id i now r.body r.decoded named))

    concluded-Answered :
        (id : String) (failed : Bool) (i now : ℕ) (r : Option Raised × Worker)
        → Attempted id failed w r
        → Answered id failed w (concluded decode_text str id i now r)
          × IsFree i (concluded decode_text str id i now r).pool
    concluded-Answered id failed i now (none, v) h =
        (unpooled id failed v _ h, release-IsFree i now v.pool)
    concluded-Answered id failed i now (some e, v) (p, fails) =
        let u = handle_error id (of_exception e) v in
        (
          subst (λ b. Answered id b w (release_connection i now u)) (sym fails)
              (unpooled id true u _ (error-Answered id (of_exception e) w v p)),
          release-IsFree i now u.pool,
        )

-- The connection of a request that was written is given back or closed. If `write` raises, or `acquire`
-- does, the pool stays as `acquire` left it: a connection that was acquired stays in use.
abbrev pub IsFreed : Awaited ℕ → Option Raised → Pool → Pool → Type 0
IsFreed (value i) none left p = IsFree i p
IsFreed (value i) (some e) left p = p ≡ left
IsFreed (raises e) write_raises left p = p ≡ left

handle_error-pool : (id : String) (e : ErrorData) (w : Worker) → (handle_error id e w).pool ≡ w.pool
unfolding handle_error
handle_error-pool id e w =
    if_both (λ (v : Worker). v.pool ≡ w.pool) (w.shutdown || not w.connected) (λ _. refl)
      (λ _. refl)

-- A worker that is not shutting down answers each prepared query exactly once, after the chunks of its
-- stream, under the query's identifier and with its own; the answer has an error exactly when something
-- that the request meets fails, or the adapter's result has one. If the request was written to a
-- connection, that connection is afterwards given back or closed, whatever failed; if `acquire` or
-- `write` raised, the pool is as `acquire` left it, a connection that was acquired being still in use.
-- The adapter names the query that it is handed, as its documentation says.
pub serve-Answered :
    (decode_text : List ℕ → String) (str : ℕ → String) (q : InFlightRequest) (got : Firing)
    (now : ℕ) (r : Response) (w : Worker)
    → w.shutdown ≡ false
    → w.connected ≡ true
    → ((d : Reply) → r.decoded ≡ value d → d.id ≡ q.query_id)
    → Answered q.query_id
        (request_failed q got.acquired got.write_raises r)
        w
        (serve decode_text str q got now r w)
      × IsFreed got.acquired got.write_raises got.left (serve decode_text str q got now r w).pool
unfolding serve fire_request process_response
serve-Answered decode_text str q got now r w running open_end named =
    subst
      (λ (x : Option InFlightRequest × Worker).
        Answered q.query_id (request_failed q got.acquired got.write_raises r) w
          (processed decode_text str now r x)
        × IsFreed got.acquired got.write_raises got.left (processed decode_text str now r x).pool)
      (sym (if_false _ _ _ running)) (go got.acquired got.write_raises)
  where
    v : Worker
    v = record w { pool = got.left }

    reported :
        (e : Raised)
        → Answered q.query_id true w (handle_error q.query_id (of_exception e) v)
          × ((handle_error q.query_id (of_exception e) v).pool ≡ got.left)
    reported e = (
      unpooled_before q.query_id true w got.left _
          (error-Answered q.query_id (of_exception e) v v (started v running open_end)),
      handle_error-pool q.query_id (of_exception e) v,
    )

    go :
        (acquired : Awaited ℕ) (write_raises : Option Raised)
        → Answered q.query_id
            (request_failed q acquired write_raises r)
            w
            (processed decode_text str now r (fired acquired write_raises q v))
          × IsFreed acquired write_raises got.left
              (processed decode_text str now r (fired acquired write_raises q v)).pool
    go (raises e) write_raises = reported e
    go (value i) (some e) = reported e
    go (value i) none =
        let (answered, free) =
          concluded-Answered v running open_end decode_text str q.query_id
            (response_failed q.is_streaming r.status r) i now
            (attempt decode_text str (record q { connection = some i }) i now r.status r v)
            (attempt-Attempted v running open_end decode_text str (record q { connection = some i })
              i now r.status r named) in
        (
          unpooled_before q.query_id (response_failed q.is_streaming r.status r) w got.left _
              answered,
          free,
        )
