-- ===== src/Core/Record/Topics.antt =====
-- core/record.py: topics and event types determine each other, and every topic fits its frame.
use Prim.Native.String.{len}
use endpoints.Base.{◌≤◌, ◌≡◌, refl, some, arith}
use endpoints.Core.Record.{
  EventType, of_session, of_error, of_sample, started, ended, interrupted, stop_loadgen,
  phase_start, start_performance_tracking, stop_performance_tracking, generic, loadgen, session,
  client, issued, complete, recv_first, recv_non_first, topic, from_topic, topic_frame_size,
}

-- Reading the topic of an event type gives that event type back, for every event type, and the topic is no longer than the fixed topic frame.
pub from_topic-topic :
    (e : EventType) → (from_topic (topic e) ≡ some e) × (len (topic e) ≤ topic_frame_size)
unfolding from_topic topic
from_topic-topic (of_session started) = (refl, omega arith)
from_topic-topic (of_session ended) = (refl, omega arith)
from_topic-topic (of_session interrupted) = (refl, omega arith)
from_topic-topic (of_session stop_loadgen) = (refl, omega arith)
from_topic-topic (of_session phase_start) = (refl, omega arith)
from_topic-topic (of_session start_performance_tracking) = (refl, omega arith)
from_topic-topic (of_session stop_performance_tracking) = (refl, omega arith)
from_topic-topic (of_error generic) = (refl, omega arith)
from_topic-topic (of_error loadgen) = (refl, omega arith)
from_topic-topic (of_error session) = (refl, omega arith)
from_topic-topic (of_error client) = (refl, omega arith)
from_topic-topic (of_sample issued) = (refl, omega arith)
from_topic-topic (of_sample complete) = (refl, omega arith)
from_topic-topic (of_sample recv_first) = (refl, omega arith)
from_topic-topic (of_sample recv_non_first) = (refl, omega arith)
