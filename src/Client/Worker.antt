-- ===== src/Client/Worker.antt =====
-- endpoint_client/worker.py: what a worker does with one query, from its request to its results. What it
-- awaits is given: a value or an exception. The pool is that of Client/Pool.
pub mod Answers
pub mod Serving
use Prim.Native.String.{◌++◌ as str_append}
use endpoints.Base.{
  ℕ, ◌+◌, Bool, true, false, ◌||◌, not, Option, none, some, List, [], ◌∷◌, ◌++◌, String, ◌==◌,
  if◌then◌else◌,
}
use endpoints.Core.Output.{TextModelOutput, ErrorData}
use endpoints.Client.Accumulator.{
  SseChoice, StreamChunk, FinalResult, Accumulator, new_accumulator, add_all, get_final_output,
}
use endpoints.Client.Pool.{Pool, release}

-- an exception, by its type's name and its `repr`
pub record Raised : Type 0 where
  pub type_name : String
  pub text : String

pub data Awaited (A : Type 0) : Type 0 where
  value : A → Awaited A
  raises : Raised → Awaited A

-- The `QueryResult` that is sent, with the entries of its metadata that the worker sets or keeps.
pub record Reply : Type 0 where
  pub id : String
  pub response_output : Option TextModelOutput
  pub error : Option ErrorData
  pub finish_reason : Option String
  pub worker_id : Option ℕ

pub data Message : Type 0 where
  chunk : StreamChunk → Message
  reply : Reply → Message

-- `InFlightRequest`, without its bytes; `connection` is the pool's number of it
pub record InFlightRequest : Type 0 where
  pub query_id : String
  pub is_streaming : Bool
  pub connection : Option ℕ

-- `stream_all_chunks` is a setting; `sent` is what the response transport was handed.
pub record Worker : Type 0 where
  pub worker_id : ℕ
  pub shutdown : Bool
  pub connected : Bool
  pub stream_all_chunks : Bool
  pub pool : Pool
  pub sent : List Message

unfoldable pub send_message : Message → Worker → Worker
send_message m w = record w { sent = w.sent ++ m ∷ [] }

-- The error of `_handle_error`: an exception or a text.
abbrev pub of_exception : Raised → ErrorData
of_exception e = record { error_type = e.type_name; error_message = e.text }

abbrev pub of_text : String → ErrorData
of_text s = record { error_type = "error"; error_message = s }

-- `_handle_error`
unfoldable pub handle_error : String → ErrorData → Worker → Worker
unfolding send_message
handle_error id e w =
    if w.shutdown || not w.connected
    then w
    else send_message
        (reply (record {
          id = id;
          response_output = none;
          error = some e;
          finish_reason = none;
          worker_id = some w.worker_id;
        }))
        w

-- `_with_worker_id`
abbrev pub with_worker_id : ℕ → Reply → Reply
with_worker_id n r = record r { worker_id = some n }

abbrev pub release_connection : ℕ → ℕ → Worker → Worker
release_connection i now w = record w { pool = release i now w.pool }

-- What `_fire_request` meets: what `acquire` gives, the pool that it leaves, and what `write` raises, if
-- anything.
pub record Firing : Type 0 where
  pub acquired : Awaited ℕ
  pub left : Pool
  pub write_raises : Option Raised

-- its `try` and `except` blocks; a failing `write` does not release the connection
abbrev pub fired :
    Awaited ℕ → Option Raised → InFlightRequest → Worker → Option InFlightRequest × Worker
fired (value i) none q w = (some (record q { connection = some i }), w)
fired (value i) (some e) q w = (none, handle_error q.query_id (of_exception e) w)
fired (raises e) write_raises q w = (none, handle_error q.query_id (of_exception e) w)

-- `_fire_request`: the request with its connection if it succeeds, and the worker
unfoldable pub fire_request : Firing → InFlightRequest → Worker → Option InFlightRequest × Worker
unfolding handle_error
fire_request got q w =
    if w.shutdown
    then (none, handle_error q.query_id (of_text "Worker is shutting down") w)
    else fired got.acquired got.write_raises q (record w { pool = got.left })

-- What a streamed body gives: choices, and then its end or an exception.
pub record Streamed : Type 0 where
  pub choices : List SseChoice
  pub ending : Option Raised

abbrev pub chunks_of : List StreamChunk → List Message
chunks_of [] = []
chunks_of (c ∷ cs) = chunk c ∷ chunks_of cs

abbrev pub reply_of : FinalResult → Reply
reply_of r = record {
  id = r.id;
  response_output = some r.response_output;
  error = none;
  finish_reason = r.finish_reason;
  worker_id = none;
}

-- `_handle_streaming_body`; `none` is no exception
abbrev pub finish_stream : ℕ → ℕ → Option Raised → Accumulator → Worker → Option Raised × Worker
finish_stream i now (some e) a w = (some e, w)
finish_stream i now none a w = (
  none,
  send_message (reply (with_worker_id w.worker_id (reply_of (get_final_output a))))
      (release_connection i now w),
)

unfoldable pub handle_streaming_body : String → ℕ → ℕ → Streamed → Worker → Option Raised × Worker
unfolding send_message add_all get_final_output
handle_streaming_body id i now body w =
    let (chunks, a) = add_all body.choices (new_accumulator id w.stream_all_chunks) in
    finish_stream i now body.ending a (record w { sent = w.sent ++ chunks_of chunks })

-- What the awaits of a response give, and the adapter's `decode_response` of the body.
pub record Response : Type 0 where
  pub status : Awaited ℕ
  pub body : Awaited (List ℕ)
  pub decoded : Awaited Reply
  pub stream : Streamed

-- `_handle_non_streaming_body`
abbrev pub send_decoded : Awaited Reply → Worker → Option Raised × Worker
send_decoded (raises e) w = (some e, w)
send_decoded (value r) w = (none, send_message (reply (with_worker_id w.worker_id r)) w)

abbrev pub handle_body : ℕ → ℕ → Awaited (List ℕ) → Awaited Reply → Worker → Option Raised × Worker
handle_body i now (raises e) decoded w = (some e, w)
handle_body i now (value b) decoded w = send_decoded decoded (release_connection i now w)

module _ (decode_text : List ℕ → String) (str : ℕ → String) where
  -- the answer to a status other than 200
  abbrev pub handle_status : String → ℕ → ℕ → ℕ → Awaited (List ℕ) → Worker → Option Raised × Worker
  handle_status id i now status (raises e) w = (some e, w)
  handle_status id i now status (value b) w = (
    none,
    handle_error id
        (of_text (str_append "HTTP " (str_append (str status) (str_append ": " (decode_text b)))))
        (release_connection i now w),
  )

  -- the `try` block of `_process_response`
  abbrev pub attempt :
      InFlightRequest → ℕ → ℕ → Awaited ℕ → Response → Worker → Option Raised × Worker
  attempt q i now (raises e) r w = (some e, w)
  attempt q i now (value status) r w =
      if not (status == 200)
      then handle_status q.query_id i now status r.body w
      else if q.is_streaming
      then handle_streaming_body q.query_id i now r.stream w
      else handle_body i now r.body r.decoded w

  -- its `except` and `finally` blocks
  abbrev pub concluded : String → ℕ → ℕ → Option Raised × Worker → Worker
  concluded id i now (none, w) = release_connection i now w
  concluded id i now (some e, w) = release_connection i now (handle_error id (of_exception e) w)

  unfoldable pub process_response : InFlightRequest → ℕ → ℕ → Response → Worker → Worker
  unfolding handle_error handle_streaming_body send_message release
  process_response q i now r w = concluded q.query_id i now (attempt q i now r.status r w)

  -- one round of the main loop for a prepared request, with what it meets
  abbrev pub processed : ℕ → Response → Option InFlightRequest × Worker → Worker
  processed now r (none, w) = w
  processed now r (some q, w) = go q.connection
    where
      go : Option ℕ → Worker
      go none = w
      go (some i) = process_response q i now r w

  unfoldable pub serve : InFlightRequest → Firing → ℕ → Response → Worker → Worker
  unfolding fire_request process_response
  serve q got now r w = processed now r (fire_request got q w)
