-- ===== src/Client/Protocol.antt =====
-- endpoint_client/http.py: `HttpResponseProtocol`. The parser's callbacks, the transport's and the reads of
-- the worker are steps on its state; header texts are given decoded and in lower case.
pub mod Reading
pub mod Iterating
use endpoints.Base.{
  ℕ, Bool, true, false, ◌&&◌, ◌||◌, not, Option, none, some, List, [], ◌∷◌, ◌++◌, String,
  if◌then◌else◌, is_some,
}
use endpoints.Base.Dict.{Dict, insert}
use endpoints.Client.Sse.{concat}

abbrev pub Bytes : Type 0
Bytes = List ℕ

-- the exceptions that the protocol keeps or raises
pub data Failure : Type 0 where
  parser_error transport_error reset_before_headers reset_before_body : Failure

-- an attribute that is None or a future
pub data Future (A : Type 0) : Type 0 where
  absent waiting : Future A
  resolved : A → Future A
  failed : Failure → Future A

-- `set_result` and `set_exception` of a future that is there and not done
abbrev pub settle : {A : Type 0} → A → Future A → Future A
settle a absent = absent
settle a waiting = resolved a
settle a (resolved b) = resolved b
settle a (failed e) = failed e

abbrev pub fail_with : {A : Type 0} → Failure → Future A → Future A
fail_with e absent = absent
fail_with e waiting = failed e
fail_with e (resolved b) = resolved b
fail_with e (failed d) = failed d

pub record Protocol : Type 0 where
  pub status_code : ℕ
  pub headers : Dict String
  pub body_chunks : List Bytes
  pub close_asked : Bool
  pub headers_future : Future (ℕ × Dict String)
  pub body_future : Future Bytes
  pub streaming : Bool
  pub stream_chunks : List Bytes
  pub stream_event : Bool
  pub headers_complete : Bool
  pub message_complete : Bool
  pub lost : Bool
  pub exc : Option Failure

abbrev pub new_protocol : Protocol
new_protocol = record {
  status_code = 0;
  headers = [];
  body_chunks = [];
  close_asked = false;
  headers_future = absent;
  body_future = absent;
  streaming = false;
  stream_chunks = [];
  stream_event = false;
  headers_complete = false;
  message_complete = false;
  lost = false;
  exc = none;
}

-- `reset`: all but the loss of the connection
unfoldable pub reset_protocol : Protocol → Protocol
reset_protocol p = record new_protocol { lost = p.lost }

abbrev pub signal_stream_end : Protocol → Protocol
signal_stream_end p = if p.streaming then record p { stream_event = true } else p

-- `data_received` whose data the parser refuses
unfoldable pub parse_failed : Protocol → Protocol
parse_failed p = record p {
  exc = some parser_error;
  headers_future = fail_with parser_error p.headers_future;
  body_future = fail_with parser_error p.body_future;
}

abbrev pub or_failure : Option Failure → Failure → Failure
or_failure none e = e
or_failure (some d) e = d

-- the body's future at `connection_lost`
abbrev pub body_at_loss : Option Failure → Bool → Bytes → Future Bytes → Future Bytes
body_at_loss (some e) complete body f = fail_with e f
body_at_loss none false body f = fail_with reset_before_body f
body_at_loss none true body f = settle body f

unfoldable pub connection_lost : Option Failure → Protocol → Protocol
connection_lost e p = signal_stream_end (record p {
  lost = true;
  exc = e;
  headers_future = fail_with (or_failure e reset_before_headers) p.headers_future;
  body_future = body_at_loss e p.message_complete (concat p.body_chunks) p.body_future;
})

unfoldable pub eof_received : Protocol → Protocol
eof_received p = signal_stream_end (record p { lost = true })

unfoldable pub on_header : String → String → Protocol → Protocol
on_header name value p = record p { headers = insert name value p.headers }

unfoldable pub on_headers_complete : ℕ → Bool → Protocol → Protocol
on_headers_complete status keep_alive p = record p {
  status_code = status;
  close_asked = not keep_alive;
  headers_complete = true;
  headers_future = settle (status, p.headers) p.headers_future;
}

unfoldable pub on_body : Bytes → Protocol → Protocol
on_body b p =
    if p.streaming
    then record p { stream_chunks = p.stream_chunks ++ b ∷ []; stream_event = true }
    else record p { body_chunks = p.body_chunks ++ b ∷ [] }

unfoldable pub on_message_complete : Protocol → Protocol
on_message_complete p = signal_stream_end (record p {
  message_complete = true;
  body_future = settle (concat p.body_chunks) p.body_future;
})

abbrev pub response_ends : Protocol → Bool
response_ends p = p.close_asked || p.lost || is_some p.exc

-- `read_headers` and `read_body`: the value at once, or a future that is waited for
unfoldable pub read_headers : Protocol → Option (ℕ × Dict String) × Protocol
read_headers p =
    if p.headers_complete
    then (some (p.status_code, p.headers), p)
    else (none, record p { headers_future = waiting })

unfoldable pub read_body : Protocol → Option Bytes × Protocol
read_body p =
    if p.message_complete
    then (some (concat p.body_chunks), p)
    else (none, record p { body_future = waiting })

-- `iter_body` as an iterator: the lists that it yielded, and whether it has returned.
pub record Iteration : Type 0 where
  pub protocol : Protocol
  pub batches : List (List Bytes)
  pub returned : Bool

abbrev pub yielded : List Bytes → List (List Bytes)
yielded [] = []
yielded (b ∷ bs) = (b ∷ bs) ∷ []

-- One run of the main loop up to its wait, or to the end.
unfoldable pub drain : Iteration → Iteration
drain i =
    let p = i.protocol in
    let ends = p.message_complete || p.lost in
    record {
      protocol = record p {
        stream_chunks = [];
        stream_event = if ends then p.stream_event else false;
      };
      batches = i.batches ++ yielded p.stream_chunks;
      returned = ends;
    }

-- the start: the chunks that came before, and the main loop unless the message is complete
unfoldable pub iter_body : Protocol → Iteration
unfolding drain
iter_body p =
    let i : Iteration = record {
      protocol = record p { streaming = true; body_chunks = [] };
      batches = yielded p.body_chunks;
      returned = true;
    } in
    if p.message_complete then i else drain i

-- the wait is over once the event is set
unfoldable pub resume_iteration : Iteration → Iteration
unfolding drain
resume_iteration i = if i.returned || not i.protocol.stream_event then i else drain i
