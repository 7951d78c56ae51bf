-- ===== src/Examples/Workers.antt =====
-- endpoint_client/http.py and worker.py at a concrete response.
use endpoints.Base.{ℕ, true, false, ◌≡◌, refl, none, some, List, [], ◌∷◌, ◌++◌, String}
use endpoints.Client.Sse.{concat, iter_sse_lines, decode_all}
use endpoints.Client.Sse.Find.{Event, message, finish, print, documents}
use endpoints.Client.Sse.Reads.{received}
use endpoints.Client.Worker.{
  value, raises, Firing, InFlightRequest, Worker, Response, serve, fire_request, handle_error,
  send_message,
}
use endpoints.Client.Pool.{acquire, run_steps}
use endpoints.Client.Worker.Serving.{IsFreed, serve-Answered}
use endpoints.Client.Worker.Answers.{Answered}
use endpoints.Client.Protocol.{
  Protocol, new_protocol, read_body, iter_body, failed, resolved, reset_before_body,
}
use endpoints.Client.Protocol.Reading.{completes, loses, end_of, arrive, read_body-outcome}
use endpoints.Client.Protocol.Iterating.{
  Piece, arrives, scheduled, bodies, take_pieces, finish_iteration, iter_body-bytes,
  streamed-documents,
}
use endpoints.Examples.Client.{choices, whole_document, events, opened_pool}

-- two chunks around the start of the read, and a connection that is lost
read_body-outcome_example :
    (end_of
      (loses none)
      (arrive ((2 ∷ []) ∷ []) (read_body (arrive ((1 ∷ []) ∷ []) new_protocol)).1)).body_future
    ≡ failed reset_before_body
read_body-outcome_example =
    read_body-outcome new_protocol ((1 ∷ []) ∷ []) ((2 ∷ []) ∷ []) (loses none) refl refl

-- the same with the whole message
complete_body :
    (end_of completes
      (arrive ((2 ∷ []) ∷ []) (read_body (arrive ((1 ∷ []) ∷ []) new_protocol)).1)).body_future
    ≡ resolved (1 ∷ 2 ∷ [])
complete_body = read_body-outcome new_protocol ((1 ∷ []) ∷ []) ((2 ∷ []) ∷ []) completes refl refl

-- a chunk before the iteration, one between two runs, and the rest of the stream
abbrev early : Protocol
early = record new_protocol { body_chunks = (100 ∷ 97 ∷ []) ∷ [] }

abbrev pieces : List Piece
pieces =
    scheduled
    ∷ arrives (116 ∷ 97 ∷ 58 ∷ 32 ∷ 123 ∷ 97 ∷ 125 ∷ 10 ∷ 10 ∷ [])
    ∷ scheduled
    ∷ arrives (print events_rest)
    ∷ []
  where
    events_rest : List Event
    events_rest = message 98 (99 ∷ []) ∷ finish ∷ []

iter_body-bytes_example :
    let i = finish_iteration completes (take_pieces pieces (iter_body early)) in
    (i.returned ≡ true) × (received i.batches ≡ concat early.body_chunks ++ bodies pieces)
iter_body-bytes_example = iter_body-bytes early pieces completes refl refl refl

streamed-documents_example :
    iter_sse_lines whole_document
      (finish_iteration completes (take_pieces pieces (iter_body early))).batches
      []
    ≡ decode_all whole_document (documents events)
streamed-documents_example =
    streamed-documents whole_document early pieces completes events refl refl refl
      ((refl, tt), ((refl, (refl, tt)), (tt, tt))) (tt, (tt, tt)) refl

-- a streamed request whose connection is lost after its choices
abbrev request : InFlightRequest
request = record { query_id = "a"; is_streaming = true; connection = none }

abbrev broken : Response
broken = record {
  status = value 200;
  body = value [];
  decoded = raises (record { type_name = "DecodeError"; text = "" });
  stream = record {
    choices = choices;
    ending = some (record { type_name = "OSError"; text = "OSError()" });
  };
}

abbrev worker : Worker
worker = record {
  worker_id = 3;
  shutdown = false;
  connected = true;
  stream_all_chunks = true;
  pool = opened_pool;
  sent = [];
}

abbrev no_text : List ℕ → String
no_text b = ""

abbrev no_number : ℕ → String
no_number n = ""

abbrev written : Firing
written = record { acquired = value 0; left = (acquire 9 opened_pool).1; write_raises = none }

serve-Answered_example :
    Answered "a" true worker (serve no_text no_number request written 9 broken worker)
    × IsFreed
        (value 0)
        none
        (acquire 9 opened_pool).1
        (serve no_text no_number request written 9 broken worker).pool
serve-Answered_example =
    serve-Answered no_text no_number request written 9 broken worker refl refl (λ d e. absurd (cc))

-- a connection whose `write` raises stays in use
unwritten_connection :
    ((serve no_text no_number request
        (record written { write_raises = some (record { type_name = "OSError"; text = "" }) })
        9
        broken
        worker).pool.conn
      0).in_use
    ≡ true
unfolding serve fire_request handle_error send_message acquire run_steps
unwritten_connection = refl
