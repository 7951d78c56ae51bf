-- ===== src/LoadGen/State.antt =====
-- load_generator/session.py: the state of `PhaseIssuer` and `BenchmarkSession`, and the small methods
-- that both use. Everything runs on one event loop: a method is one step on the state.
use endpoints.Base.{
  ℕ, Bool, true, false, Option, none, some, List, [], ◌∷◌, ◌++◌, String, if◌then◌else◌,
}
use endpoints.Base.Dict.{Dict}
use endpoints.Core.Output.{Json}
use endpoints.Core.Record.{EventRecord, of_session, SessionEventType, Payload, PhaseType}

-- `uuid_to_conv_info`: the conversation and the turn of a query
abbrev pub ConvInfo : Type 0
ConvInfo = String × Option ℕ

pub record PhaseIssuer : Type 0 where
  pub uuid_to_index : Dict ℕ
  pub uuid_to_conv_info : Dict ConvInfo
  pub completed_uuids : Dict Bool
  pub inflight : ℕ
  pub inflight_started_ns : Option ℕ
  pub issued_count : ℕ
  pub tracking_stopped : Bool
  pub prompt_warnings : List String
  pub routing_headers : List String

abbrev pub new_issuer : List String → PhaseIssuer
new_issuer headers = record {
  uuid_to_index = [];
  uuid_to_conv_info = [];
  completed_uuids = [];
  inflight = 0;
  inflight_started_ns = none;
  issued_count = 0;
  tracking_stopped = false;
  prompt_warnings = [];
  routing_headers = headers;
}

-- the errors that `run` raises
pub data FatalError : Type 0 where
  idle_timeout receiver_failed : FatalError

-- `_stop_check` of the phase: what `_make_stop_check` reads from the settings. A `max_duration_ns` of 0
-- is no limit; `counts_samples` is false for the agentic load pattern.
pub record StopCheck : Type 0 where
  pub phase_start_ns : ℕ
  pub max_duration_ns : ℕ
  pub total_samples : ℕ
  pub counts_samples : Bool

-- `data` is `none` for a sample that is not a mapping
pub record Query : Type 0 where
  pub id : String
  pub sample : Option (Dict Json)
  pub headers : Dict String

pub record PhaseResult : Type 0 where
  pub phase_type : PhaseType
  pub uuid_to_index : Dict ℕ
  pub issued_count : ℕ
  pub start_time_ns : ℕ
  pub end_time_ns : ℕ

-- The mutable state of a session. The timer is its delay in nanoseconds. A strategy task is `running`
-- while it exists and is not done. `published`, `sent`, `strategy_told` and `samples_told` list what the
-- publisher, the endpoint client, the strategy and the caller's callback were handed, in order; `phase_results` is the local of `run`.
pub record Session : Type 0 where
  pub stop_requested : Bool
  pub phase_stopped : Bool
  pub done : Bool
  pub issuer : Option PhaseIssuer
  pub phase_type : Option PhaseType
  pub check : StopCheck
  pub drain_event : Bool
  pub fatal_error : Option FatalError
  pub last_progress_ns : Option ℕ
  pub idle_timeout_ns : Option ℕ
  pub timer : Option ℕ
  pub strategy_running : Bool
  pub published : List EventRecord
  pub sent : List Query
  pub strategy_told : List String
  pub samples_told : List String
  pub phase_results : List PhaseResult

abbrev pub new_session : Option ℕ → Session
new_session timeout = record {
  stop_requested = false;
  phase_stopped = false;
  done = false;
  issuer = none;
  phase_type = none;
  check = record {
    phase_start_ns = 0;
    max_duration_ns = 0;
    total_samples = 0;
    counts_samples = true;
  };
  drain_event = false;
  fatal_error = none;
  last_progress_ns = none;
  idle_timeout_ns = timeout;
  timer = none;
  strategy_running = false;
  published = [];
  sent = [];
  strategy_told = [];
  samples_told = [];
  phase_results = [];
}

unfoldable pub publish : EventRecord → Session → Session
publish r s = record s { published = s.published ++ r ∷ [] }

abbrev pub session_event : SessionEventType → ℕ → Payload → EventRecord
session_event e ts sample = record {
  event_type = of_session e;
  timestamp_ns = ts;
  sample_uuid = "";
  conversation_id = "";
  turn = none;
  payload = sample;
  finish_reason = none;
  worker_id = none;
}

-- `_publish_session_event`
unfoldable pub publish_session_event : SessionEventType → ℕ → Payload → Session → Session
unfolding publish
publish_session_event e ts sample s = publish (session_event e ts sample) s

abbrev pub set_issuer : PhaseIssuer → Session → Session
set_issuer p s = record s { issuer = some p }

-- `_on_inflight_started`: arm the guard, unless it is off or armed
abbrev pub arm : Option ℕ → Option ℕ → Option ℕ
arm none timer = timer
arm (some _) (some delay) = some delay
arm (some ns) none = some ns

unfoldable pub on_inflight_started : Session → Session
on_inflight_started s = record s { timer = arm s.idle_timeout_ns s.timer }

-- `_disarm_endpoint_response_idle_timeout`
abbrev pub disarm : Session → Session
disarm s = record s { timer = none }

-- `_on_inflight_drained`
unfoldable pub on_inflight_drained : Session → Session
on_inflight_drained s = disarm (record s { drain_event = true })

-- `stop`: a running strategy is cancelled
unfoldable pub stop : Session → Session
stop s = disarm (record s { stop_requested = true; drain_event = true; strategy_running = false })

-- `stop_current_phase`
unfoldable pub stop_current_phase : Session → Session
stop_current_phase s =
    if s.strategy_running then record s { phase_stopped = true; strategy_running = false } else s
