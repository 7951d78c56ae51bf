-- ===== src/LoadGen.antt =====
-- src/inference_endpoint/load_generator: issuing samples, routing responses, running phases.
pub mod State
pub mod Prompt
pub mod Issuer
pub mod Responses
pub mod Run
pub mod Markers
pub mod Guard
pub mod SampleOrder
pub mod Conversation
pub mod Concurrency
pub mod Burst
pub mod Trajectories
pub mod Agentic
pub mod Salt
pub mod TurnCounts
