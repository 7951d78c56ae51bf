-- ===== src/LoadGen/Responses.antt =====
-- load_generator/session.py: responses, the receiver's failures, and the liveness guard.
use endpoints.Base.{
  ℕ, suc, ◌-◌, Bool, true, false, ◌||◌, Option, none, some, List, [], ◌∷◌, ◌++◌, String, ltb,
  if◌then◌else◌, is_some,
}
use endpoints.Base.Dict.{lookup, erase, contains}
use endpoints.Core.Output.{TextModelOutput, ErrorData}
use endpoints.Core.Record.{
  EventRecord, of_error, of_sample, generic, complete, recv_first, recv_non_first, Payload, nothing,
  output, failure, PhaseType, warmup,
}
use endpoints.LoadGen.State.{
  ConvInfo, PhaseIssuer, FatalError, disarm, idle_timeout, receiver_failed, Session, publish,
  set_issuer, stop,
}
use endpoints.LoadGen.Issuer.{mark_inflight_complete}

-- The fields of a `QueryResult` that the session reads; of the metadata, the two typed entries.
pub record QueryResult : Type 0 where
  pub id : String
  pub response_output : Option TextModelOutput
  pub error : Option ErrorData
  pub completed_at : Option ℕ
  pub finish_reason : Option String
  pub worker_id : Option ℕ

pub record StreamChunk : Type 0 where
  pub id : String
  pub first_chunk : Bool

abbrev pub info_of : Option PhaseIssuer → String → ConvInfo
info_of none id = ("", none)
info_of (some p) id = go (lookup id p.uuid_to_conv_info)
  where
    go : Option ConvInfo → ConvInfo
    go none = ("", none)
    go (some i) = i

abbrev pub error_record : ConvInfo → ℕ → String → ErrorData → EventRecord
error_record info now id e = record {
  event_type = of_error generic;
  timestamp_ns = now;
  sample_uuid = id;
  conversation_id = info.0;
  turn = info.1;
  payload = failure e;
  finish_reason = none;
  worker_id = none;
}

abbrev pub or_now : Option ℕ → ℕ → ℕ
or_now none now = now
or_now (some t) now = t

abbrev pub as_payload : Option TextModelOutput → Payload
as_payload none = nothing
as_payload (some o) = output o

abbrev pub complete_record : ConvInfo → ℕ → QueryResult → EventRecord
complete_record info now r = record {
  event_type = of_sample complete;
  timestamp_ns = or_now r.completed_at now;
  sample_uuid = r.id;
  conversation_id = info.0;
  turn = info.1;
  payload = as_payload r.response_output;
  finish_reason = r.finish_reason;
  worker_id = r.worker_id;
}

abbrev pub is_warmup : Option PhaseType → Bool
is_warmup (some warmup) = true
is_warmup _ = false

-- The events of a result, in the order of publication: ERROR first, then COMPLETE but in a warmup.
abbrev pub events_of : ConvInfo → ℕ → QueryResult → Bool → List EventRecord
events_of info now r warm = errors r.error ++ (if warm then [] else complete_record info now r ∷ [])
  where
    errors : Option ErrorData → List EventRecord
    errors none = []
    errors (some e) = error_record info now r.id e ∷ []

unfoldable pub publish_all : List EventRecord → Session → Session
publish_all [] s = s
publish_all (r ∷ rs) s = publish_all rs (publish r s)

-- what is told of a completed query: the strategy, and the caller but in a warmup
abbrev tell : String → Session → Session
tell id s = record s {
  strategy_told = s.strategy_told ++ id ∷ [];
  samples_told = if is_warmup s.phase_type then s.samples_told else s.samples_told ++ id ∷ [];
}

-- `_handle_response` of a result whose issuer is there
unfoldable pub handle_result : QueryResult → ℕ → PhaseIssuer → Session → Session
handle_result r now p s =
    if contains r.id p.completed_uuids
    then s
    else let q = record p { uuid_to_conv_info = erase r.id p.uuid_to_conv_info } in
      let t =
        publish_all (events_of (info_of (some p) r.id) now r (is_warmup s.phase_type))
          (set_issuer q s) in
      if contains r.id q.uuid_to_index then tell r.id (mark_inflight_complete q t) else t

unfoldable pub route_result : Option PhaseIssuer → QueryResult → ℕ → Session → Session
route_result none r now s = publish_all (events_of ("", none) now r (is_warmup s.phase_type)) s
route_result (some p) r now s = handle_result r now p s

unfoldable pub handle_query_result : QueryResult → ℕ → Session → Session
handle_query_result r now s = route_result s.issuer r now s

unfoldable pub handle_chunk : StreamChunk → ℕ → Session → Session
handle_chunk c now s =
    let info = info_of s.issuer c.id in
    publish
      (record {
        event_type = of_sample (if c.first_chunk then recv_first else recv_non_first);
        timestamp_ns = now;
        sample_uuid = c.id;
        conversation_id = info.0;
        turn = info.1;
        payload = nothing;
        finish_reason = none;
        worker_id = none;
      })
      s

pub data Response : Type 0 where
  result : QueryResult → Response
  chunk : StreamChunk → Response

-- `self._last_response_progress_ns = now_ns` of the receive loop
abbrev pub stamp : ℕ → Session → Session
stamp now t = if is_some t.idle_timeout_ns then record t { last_progress_ns = some now } else t

-- `_handle_response`, and the stamp that the receive loop sets after it
unfoldable pub handle_response : Response → ℕ → Session → Session
handle_response (result r) now s = stamp now (handle_query_result r now s)
handle_response (chunk c) now s = stamp now (handle_chunk c now s)

-- `recv()` returned None: stop, though the timer is left as it is
unfoldable pub transport_closed : Session → Session
transport_closed s = record s {
  stop_requested = true;
  drain_event = true;
  strategy_running = false;
}

abbrev pub first_error : Option FatalError → FatalError → Option FatalError
first_error none e = some e
first_error (some old) e = some old

-- the receive loop's `except Exception`
unfoldable pub receiver_raised : Session → Session
receiver_raised s = stop (record s { fatal_error = first_error s.fatal_error receiver_failed })

-- `max` of the stamps that are there
abbrev pub last_progress : Option ℕ → ℕ → ℕ
last_progress none started = started
last_progress (some t) started = if ltb t started then started else t

-- the end of `_fire_endpoint_response_idle_timeout`: re-arm for the remainder, or fail the run
unfoldable pub expire : ℕ → ℕ → ℕ → Session → Session
expire timeout now started s =
    let idle = now - last_progress s.last_progress_ns started in
    if ltb idle timeout
    then record s { timer = some (timeout - idle) }
    else stop (record (disarm s) { fatal_error = first_error s.fatal_error idle_timeout })

-- its guards on the timeout, the issuer, the requests in flight and their start
unfoldable pub fire_guarded : ℕ → Option ℕ → Option PhaseIssuer → ℕ → Option ℕ → Session → Session
fire_guarded now (some timeout) (some p) (suc n) (some started) s = expire timeout now started s
fire_guarded now _ _ _ _ s = disarm s

abbrev pub inflight_of : Option PhaseIssuer → ℕ
inflight_of none = 0
inflight_of (some p) = p.inflight

abbrev pub started_of : Option PhaseIssuer → Option ℕ
started_of none = none
started_of (some p) = p.inflight_started_ns

-- `_fire_endpoint_response_idle_timeout`, at `now`, after the timer ran out
unfoldable pub fire_timer : ℕ → Session → Session
fire_timer now s =
    if s.done || s.stop_requested
    then disarm s
    else fire_guarded now s.idle_timeout_ns s.issuer (inflight_of s.issuer) (started_of s.issuer) s
