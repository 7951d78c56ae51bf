-- ===== src/Core.antt =====
-- core/: the records that the components exchange.
pub mod Output
pub mod Record
