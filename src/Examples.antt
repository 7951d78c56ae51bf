-- ===== src/Examples.antt =====
-- Concrete inputs: tests of the definitions, and the theorems applied.
pub mod Inputs
mod Outputs
mod Services
mod Sessions
pub mod Searches
mod Gates
mod Client
mod Agents
mod Workers
mod Settings
mod Salts
mod Counts
