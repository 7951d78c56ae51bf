-- ===== src/LoadGen/Issuer.antt =====
-- load_generator/session.py: `PhaseIssuer` and the stop check of a phase. A method runs on the session
-- whose current issuer it is; clock readings and fresh query identifiers are arguments.
use endpoints.Base.{
  ℕ, ◌+◌, ◌-◌, Bool, true, false, ◌&&◌, ◌||◌, Option, none, some, List, [], ◌∷◌, ◌++◌, String,
  str_eq, leb, ltb, ◌==◌, if◌then◌else◌, is_some,
}
use endpoints.Base.Dict.{Dict, insert}
use endpoints.Core.Output.{Json, PromptData, nonempty}
use endpoints.Core.Record.{
  EventRecord, of_sample, stop_performance_tracking, issued, nothing, prompt,
}
use endpoints.LoadGen.State.{
  PhaseIssuer, Query, Session, publish, publish_session_event, set_issuer, on_inflight_started,
  on_inflight_drained,
}
use endpoints.LoadGen.Prompt.{
  PromptChoice, chosen, unavailable, both_token_fields, choose_prompt, merge_data, no_prompt,
}

-- `check()` of `_make_stop_check`, at the time `now`
unfoldable pub must_stop : ℕ → PhaseIssuer → Session → Bool
must_stop now p s =
    s.stop_requested
    || s.phase_stopped
    || (s.check.counts_samples && leb s.check.total_samples p.issued_count)
    || (ltb 0 s.check.max_duration_ns && leb s.check.max_duration_ns (now - s.check.phase_start_ns))

-- `mark_inflight_complete`
unfoldable pub mark_inflight_complete : PhaseIssuer → Session → Session
mark_inflight_complete p s =
    if p.inflight == 0
    then s
    else if p.inflight == 1
    then on_inflight_drained (set_issuer (record p { inflight = 0; inflight_started_ns = none }) s)
    else set_issuer (record p { inflight = p.inflight - 1 }) s

-- `stop_performance_tracking` of the issuer
unfoldable pub stop_tracking_once : ℕ → PhaseIssuer → Session → Session
stop_tracking_once ts p s =
    if p.tracking_stopped
    then s
    else publish_session_event stop_performance_tracking ts nothing
        (set_issuer (record p { tracking_stopped = true }) s)

-- The arguments of `issue` with what the call reads: the clock for the stop check, for the event and
-- for the in-flight start, and the identifier that `uuid4` gives.
pub record Call : Type 0 where
  pub sample_index : ℕ
  pub data_override : Option (Dict Json)
  pub conversation_id : String
  pub turn : Option ℕ
  pub query_id : String
  pub now : ℕ
  pub ts : ℕ
  pub started_ts : ℕ

-- `none`, the query's identifier, or an exception (both token fields, or an override of a sample
-- that is not a mapping).
pub data Answer : Type 0 where
  refused : Answer
  accepted : String → Answer
  raised : Answer

abbrev pub issued_record : Call → ℕ → PromptData → EventRecord
issued_record c ts sample = record {
  event_type = of_sample issued;
  timestamp_ns = ts;
  sample_uuid = c.query_id;
  conversation_id = c.conversation_id;
  turn = c.turn;
  payload = prompt sample;
  finish_reason = none;
  worker_id = none;
}

-- `uuid_to_index[query_id] = …` and `uuid_to_conv_info[query_id] = …`
abbrev pub registered : Call → PhaseIssuer → PhaseIssuer
registered c p = record p {
  uuid_to_index = insert c.query_id c.sample_index p.uuid_to_index;
  uuid_to_conv_info = insert c.query_id (c.conversation_id, c.turn) p.uuid_to_conv_info;
}

abbrev member : String → List String → Bool
member x [] = false
member x (y ∷ ys) = str_eq x y || member x ys

-- `_warn_prompt_once`
warn_once : String → PhaseIssuer → PhaseIssuer
warn_once reason p = record p {
  prompt_warnings =
      if member reason p.prompt_warnings
      then p.prompt_warnings
      else p.prompt_warnings ++ reason ∷ [];
}

-- `dict.fromkeys(self._routing_headers, conversation_id) if conversation_id else {}`
headers_of : List String → String → Dict String
headers_of [] conv = []
headers_of (h ∷ hs) conv = if nonempty conv then insert h conv (headers_of hs conv) else []

-- the part of `issue` from `self._publisher.publish` on
unfoldable pub send : Call → Option (Dict Json) → PromptData → PhaseIssuer → Session → Session
unfolding headers_of
send c sample prompt_data p s =
    let sent : Query = record {
      id = c.query_id;
      sample = sample;
      headers = headers_of p.routing_headers c.conversation_id;
    } in
    let s1 = publish (issued_record c c.ts prompt_data) s in
    let s2 = record s1 { sent = s1.sent ++ sent ∷ [] } in
    let counted = record p { inflight = p.inflight + 1; issued_count = p.issued_count + 1 } in
    if p.inflight == 0 && is_some s.idle_timeout_ns
    then on_inflight_started
        (set_issuer (record counted { inflight_started_ns = some c.started_ts }) s2)
    else set_issuer counted s2

unfoldable pub send_choice :
    Call → Option (Dict Json) → PromptChoice → PhaseIssuer → Session → Answer × Session
unfolding warn_once
send_choice c sample (chosen d) p s = (accepted c.query_id, send c sample d p s)
send_choice c sample (unavailable reason) p s =
    (accepted c.query_id, send c sample no_prompt (warn_once reason p) s)
send_choice c sample both_token_fields p s = (raised, set_issuer p s)

-- `data` with its override; `none` is the exception
unfoldable pub overridden : Option (Dict Json) → Option (Dict Json) → Option (Option (Dict Json))
overridden sample none = some sample
overridden (some d) (some o) = some (some (merge_data d o))
overridden none (some o) = none

unfoldable pub send_data :
    Call → Option (Option (Dict Json)) → PhaseIssuer → Session → Answer × Session
send_data c none p s = (raised, s)
send_data c (some sample) p s = send_choice c sample (choose_prompt sample) (registered c p) s

-- `issue`; `load_sample` is the dataset's
unfoldable pub issue : (ℕ → Option (Dict Json)) → Call → PhaseIssuer → Session → Answer × Session
unfolding overridden
issue load_sample c p s =
    if must_stop c.now p s
    then (refused, s)
    else send_data c (overridden (load_sample c.sample_index) c.data_override) p s

-- `register_skipped`
unfoldable pub register_skipped : Call → PhaseIssuer → Session → Answer × Session
register_skipped c p s = if must_stop c.now p s then (refused, s) else (
  accepted c.query_id,
  publish (issued_record c c.ts no_prompt) (
      set_issuer
        (record (registered c p) {
          completed_uuids = insert c.query_id true p.completed_uuids;
          issued_count = p.issued_count + 1;
        })
        s),
)
