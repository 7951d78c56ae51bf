-- ===== src/Core/Record.antt =====
-- core/record.py: event types, their topics, and event records.
pub mod Topics
pub mod Markers
use Prim.Native.Char.{Char, code}
use Prim.Native.String.{len, ◌++◌ as str_append}
use endpoints.Base.{ℕ, Bool, Option, none, some, List, [], ◌∷◌, String, str_eq, ◌==◌, if◌then◌else◌}
use endpoints.Core.Output.{TextModelOutput, PromptData, ErrorData}

pub data SessionEventType : Type 0 where
  started ended interrupted stop_loadgen phase_start : SessionEventType
  start_performance_tracking stop_performance_tracking : SessionEventType

pub data ErrorEventType : Type 0 where
  generic loadgen session client : ErrorEventType

pub data SampleEventType : Type 0 where
  issued complete recv_first recv_non_first : SampleEventType

-- The three enum classes that `EventTypeMeta` registers.
pub data EventType : Type 0 where
  of_session : SessionEventType → EventType
  of_error : ErrorEventType → EventType
  of_sample : SampleEventType → EventType

pub data PhaseType : Type 0 where
  performance accuracy warmup : PhaseType

pub record PhaseData : Type 0 where
  pub phase_type : PhaseType
  pub drain_after : Bool
  pub num_turns : ℕ
  pub num_trajectories : ℕ

pub data Payload : Type 0 where
  nothing : Payload
  output : TextModelOutput → Payload
  prompt : PromptData → Payload
  failure : ErrorData → Payload
  phase : PhaseData → Payload

-- `sample_uuid` and `conversation_id` default to the empty text; `msgspec.UNSET` is `none`.
pub record EventRecord : Type 0 where
  pub event_type : EventType
  pub timestamp_ns : ℕ
  pub sample_uuid : String
  pub conversation_id : String
  pub turn : Option ℕ
  pub payload : Payload
  pub finish_reason : Option String
  pub worker_id : Option ℕ

abbrev pub topic_frame_size : ℕ
topic_frame_size = 40

pub category : EventType → String
category (of_session _) = "session"
category (of_error _) = "error"
category (of_sample _) = "sample"

session_value : SessionEventType → String
session_value started = "started"
session_value ended = "ended"
session_value interrupted = "interrupted"
session_value stop_loadgen = "stop_loadgen"
session_value phase_start = "phase_start"
session_value start_performance_tracking = "start_performance_tracking"
session_value stop_performance_tracking = "stop_performance_tracking"

error_value : ErrorEventType → String
error_value generic = "generic"
error_value loadgen = "loadgen"
error_value session = "session"
error_value client = "client"

sample_value : SampleEventType → String
sample_value issued = "issued"
sample_value complete = "complete"
sample_value recv_first = "recv_first"
sample_value recv_non_first = "recv_non_first"

pub value : EventType → String
unfolding session_value error_value sample_value
value (of_session e) = session_value e
value (of_error e) = error_value e
value (of_sample e) = sample_value e

-- `member.topic = f"{category}.{member._value_}"`
unfoldable pub topic : EventType → String
unfolding category value
topic e = str_append (category e) (str_append "." (value e))

-- `topic.split(".")`: the word read so far is held back to front.
split_from : String → String → List String
split_from word String.[] = word ∷ []
split_from word (String.◌∷◌ c s) =
    if code c == b'.'
    then word ∷ split_from "" s
    else split_from (str_append word (String.◌∷◌ c "")) s

abbrev session_events : List SessionEventType
session_events =
    started ∷ ended ∷ interrupted ∷ stop_loadgen ∷ phase_start ∷ start_performance_tracking
    ∷ stop_performance_tracking ∷ []

abbrev error_events : List ErrorEventType
error_events = generic ∷ loadgen ∷ session ∷ client ∷ []

abbrev sample_events : List SampleEventType
sample_events = issued ∷ complete ∷ recv_first ∷ recv_non_first ∷ []

-- `enum_cls(value)`: the member of that value, or `ValueError`.
member {ℓ} : {E : Type ℓ} → (E → String) → String → List E → Option E
member name v [] = none
member name v (e ∷ es) = if str_eq (name e) v then some e else member name v es

abbrev wrap {ℓ κ} : {A : Type ℓ} {B : Type κ} → (A → B) → Option A → Option B
wrap f none = none
wrap f (some a) = some (f a)

registered : String → String → Option EventType
unfolding member session_value error_value sample_value
registered c v =
    if str_eq c "session"
    then wrap of_session (member session_value v session_events)
    else if str_eq c "error"
    then wrap of_error (member error_value v error_events)
    else if str_eq c "sample"
    then wrap of_sample (member sample_value v sample_events)
    else none

lookup_parts : List String → Option EventType
unfolding registered
lookup_parts (c ∷ (v ∷ [])) = registered c v
lookup_parts _ = none

-- `none` is `ValueError`: not two parts, an unknown category, or an unknown value.
unfoldable pub from_topic : String → Option EventType
unfolding split_from lookup_parts
from_topic t = lookup_parts (split_from "" t)
