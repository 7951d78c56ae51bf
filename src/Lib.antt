-- ===== src/Lib.antt =====
-- A model of the benchmark client's core: the worker's connections and streams
-- (src/inference_endpoint/endpoint_client), the session that issues samples and routes responses
-- (src/inference_endpoint/load_generator), the event records that it publishes
-- (src/inference_endpoint/core), and the service that turns these records into counters, series
-- and the terminal snapshot (src/inference_endpoint/async_utils/services/metrics_aggregator).
--
-- The parts and their files:
--   Base            shared helpers: Boolean tests on the native numbers, lists, integers as a pair
--                   of constructors, and Python's dict by string keys as an association list in
--                   insertion order (Base/Dict).
--   Core/Output     core/types.py: the output of a query, its text and message parts (Views), and the
--                   merging of streamed tool calls. Truth of Python values is written out.
--   Core/Record     core/record.py: event types, topics (Core/Record/Topics), records, and the two
--                   markers that end a session (Core/Record/Markers).
--   Metrics/Table   metrics_table.py and tokenization.py: `MetricsTable` with its rows and tracked
--                   blocks; the triggers (Metrics/Table/Triggers) and `set_field`
--                   (Metrics/Table/Fields).
--   Metrics/Series  registry.py: `SeriesSampler.record` on integers.
--   Metrics/Counters registry.py and aggregator.py: the counters, as one record.
--   Metrics/Queue   token_metrics.py: `TokenBatchQueue`.
--   Metrics/Collector  metrics/steady_state_diagnostics.py: `SuperPassCollector`.
--   Metrics/Publisher  publisher.py and snapshot.py: the terminal snapshot.
--   Metrics/Aggregator aggregator.py: one function for each branch of `process`, and the loop and the
--                   shutdown in Metrics/Aggregator/Process.
--   LoadGen/State, LoadGen/Prompt, LoadGen/Issuer, LoadGen/Responses, LoadGen/Run
--                   session.py: `PhaseIssuer` and `BenchmarkSession`.
--   Metrics/EarlyStopping  metrics/early_stopping.py: the two searches and their domain, on fuel with
--                   proofs of how much is enough.
--   LoadGen/SampleOrder, LoadGen/Conversation, LoadGen/Concurrency, LoadGen/Burst
--                   sample_order.py, conversation_manager.py, and the semaphore and the burst
--                   strategy of strategy.py on the session.
--   Client/Pool     endpoint_client/http.py: `PooledConnection` and `ConnectionPool` on a store of
--                   connections, with the coroutines of the pool counted by where they are suspended.
--   Client/Protocol endpoint_client/http.py: `HttpResponseProtocol`, its callbacks and reads as steps.
--   Client/Worker   endpoint_client/worker.py: one query from its request to its answers.
--   Client/Sse      endpoint_client/worker.py and adapter_protocol.py: the bytes of a streamed body
--                   become events; the pattern of an event is a matcher of its own.
--   Client/Accumulator  openai/accumulator.py and openai/types.py: deltas become chunks and a result.
--   LoadGen/Trajectories, LoadGen/Agentic
--                   agentic_inference_strategy.py: what the strategy is given and the conversations that
--                   it draws; its methods on an interface of the phase issuer, and `execute` with what
--                   the event loop calls (LoadGen/Agentic/Events). LoadGen/Agentic/OnSession makes the
--                   session's issuer that interface.
--   LoadGen/Salt    agentic_inference_strategy.py: the salting of messages and its validation.
--   LoadGen/TurnCounts  agentic_inference_strategy.py: the number of samples that a run is expected to issue.
--   Client/Generate sglang/accumulator.py: the same for a stream whose events carry the whole text.
--   Config/SampleCount  config/runtime_settings.py: how many samples a run issues.
--   Pipeline        the session's events in the aggregator.
--   Examples        tests, and the theorems applied to concrete inputs.
--
-- How they interact: the session appends records to `published`; the publisher and the sockets
-- keep their order, and the aggregator processes them in batches. The strategy, the receiver, the
-- liveness timer and calls from outside all run on one event loop, so that a phase is a sequence
-- of steps (LoadGen/Run, `Step`), each of which is one method of the code on the session's state.
-- A phase's script lists the steps that happen while the strategy runs and those of the drain; the
-- theorems hold for every script, so for every order of issuing, responses, failures and stops, and
-- also for orders that the code excludes, such as a response after the transport closed.
--
-- Choices: numbers are natural, times are nanoseconds; a time of -1 and an index of -1 are `none`,
-- and a difference of times is an integer where the code keeps it (Base/Int). The loops of the
-- code run over lists; the searches of early stopping have fuel, and their theorems say what is
-- enough; the filling of slots of the agentic strategy has one unit for each trajectory that is
-- left, and one more, and the theorem on waiting shows that this suffices. Clock readings and
-- fresh identifiers are arguments. Parameters stand for the JSON encoder, for the decoder of a
-- streamed document, for what the tokenizer does with a batch, for the dataset, for the random
-- generator, for the hash of a salt, for the sample order of the burst strategy and for the odds of
-- early stopping.
--
-- Not modelled: the sockets, worker processes and codecs of the client, datasets, scorers, reports
-- and plots, the command line, histograms and floating-point statistics. They are input and output,
-- third-party code, or floating point. An exception of a strategy, which leaves `_run_phase` without
-- a drain and ends the run, is not modelled either; the live flush of the token queue awaits the
-- tokenizer in one step, and recorded integers have no machine bound.
pub mod Base
pub mod Core
pub mod Metrics
pub mod LoadGen
pub mod Client
pub mod Config
pub mod Pipeline
pub mod Examples
