-- ===== src/Client.antt =====
-- endpoint_client/ and openai/: what a worker does with one request.
pub mod Accumulator
pub mod Sse
pub mod Pool
pub mod Protocol
pub mod Worker
pub mod Generate
