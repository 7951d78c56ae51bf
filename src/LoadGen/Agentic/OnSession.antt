-- ===== src/LoadGen/Agentic/OnSession.antt =====
-- load_generator/agentic_inference_strategy.py on load_generator/session.py: the session's issuer as the
-- strategy's, with the part of `_handle_timeout` and `_publish_synthetic_failure` that is the session's.
use endpoints.Base.{ℕ, ◌+◌, true, Option, none, some, [], ◌∷◌, ◌++◌, String, if◌then◌else◌}
use endpoints.Base.Dict.{Dict, insert, erase, contains}
use endpoints.Core.Output.{Json, ErrorData}
use endpoints.LoadGen.State.{PhaseIssuer, Session, ConvInfo, set_issuer}
use endpoints.LoadGen.Issuer.{
  Call, Answer, refused, accepted, raised, issue, register_skipped, mark_inflight_complete,
  stop_tracking_once,
}
use endpoints.LoadGen.Responses.{QueryResult, info_of, error_record, complete_record, publish_all}
use endpoints.LoadGen.Trajectories.{ConversationTurn}
use endpoints.LoadGen.Agentic.{Issuer}

-- What a call reads: a fresh identifier and the clock.
pub record Stamp : Type 0 where
  pub query_id : String
  pub now : ℕ
  pub ts : ℕ
  pub started_ts : ℕ

-- The session, with the number of stamps that were used.
pub record Desk : Type 0 where
  pub session : Session
  pub used : ℕ

abbrev pub call_of : Stamp → ConversationTurn → String → Option (Dict Json) → Call
call_of stamp t conv o = record {
  sample_index = t.0;
  data_override = o;
  conversation_id = conv;
  turn = some t.1;
  query_id = stamp.query_id;
  now = stamp.now;
  ts = stamp.ts;
  started_ts = stamp.started_ts;
}

-- `_handle_timeout`: a query that the issuer issued is no longer in flight, and a later result of it is
-- a duplicate; its conversation is returned
abbrev pub forget : String → Option PhaseIssuer → Session → Session
forget q none s = s
forget q (some p) s =
    set_issuer
      (record p {
        completed_uuids = insert q true p.completed_uuids;
        uuid_to_conv_info = erase q p.uuid_to_conv_info;
      })
      s

unfoldable pub time_out_query : String → PhaseIssuer → Session → ConvInfo × Session
unfolding mark_inflight_complete
time_out_query q p s =
    if contains q p.uuid_to_index
    then (
      info_of (some p) q,
      forget q (mark_inflight_complete p s).issuer (mark_inflight_complete p s),
    )
    else (("", none), s)

abbrev pub synthetic_result : String → ErrorData → QueryResult
synthetic_result q e = record {
  id = q;
  response_output = none;
  error = some e;
  completed_at = none;
  finish_reason = none;
  worker_id = none;
}

-- `_publish_synthetic_failure`. Of the callback, the strategy's part finds no query in flight.
unfoldable pub publish_synthetic_failure : String → ConvInfo → ErrorData → ℕ → ℕ → Session → Session
unfolding publish_all
publish_synthetic_failure q info e now later s =
    let t =
      publish_all
        (error_record info now q e ∷ complete_record info later (synthetic_result q e) ∷ []) s in
    record t { samples_told = t.samples_told ++ q ∷ [] }

abbrev pub answered : ℕ → Answer × Session → Answer × Desk
answered n (a, s) = (a, record { session = s; used = n + 1 })

abbrev pub identifier : Answer × Desk → Option String × Desk
identifier (refused, d) = (none, d)
identifier (accepted q, d) = (some q, d)
identifier (raised, d) = (none, d)

abbrev pub time_out_by : String → Option PhaseIssuer → Desk → ConvInfo × Desk
time_out_by q none d = (("", none), d)
time_out_by q (some p) d =
    let (info, s) = time_out_query q p d.session in (info, record d { session = s })

module _ (stamps : ℕ → Stamp) where
  abbrev pub skip_by : ConversationTurn → String → Option PhaseIssuer → Desk → Option String × Desk
  skip_by t conv none d = (none, d)
  skip_by t conv (some p) d =
      identifier
        (answered d.used (register_skipped (call_of (stamps d.used) t conv none) p d.session))

  abbrev pub stop_by : Option PhaseIssuer → Desk → Desk
  stop_by none d = d
  stop_by (some p) d = record {
    session = stop_tracking_once (stamps d.used).ts p d.session;
    used = d.used + 1;
  }

module _ (load_sample : ℕ → Option (Dict Json)) (stamps : ℕ → Stamp) where
  abbrev pub issue_by :
      ConversationTurn → String → Option (Dict Json) → Option PhaseIssuer → Desk → Answer × Desk
  issue_by t conv o none d = (raised, d)
  issue_by t conv o (some p) d =
      answered d.used (issue load_sample (call_of (stamps d.used) t conv o) p d.session)

  unfoldable pub session_issuer : Issuer Desk
  unfolding issue register_skipped stop_tracking_once time_out_query publish_synthetic_failure
  session_issuer = record {
    issue = λ t conv o d. issue_by t conv o d.session.issuer d;
    register_skipped = λ t conv d. skip_by stamps t conv d.session.issuer d;
    stop_performance_tracking = λ d. stop_by stamps d.session.issuer d;
    time_out = λ q d. time_out_by q d.session.issuer d;
    report = λ q info e d. record {
      session = publish_synthetic_failure q info e (stamps d.used).now (stamps d.used).ts d.session;
      used = d.used + 1;
    };
  }
