-- ===== src/Config.antt =====
-- config/: the settings that decide how much a run issues.
pub mod SampleCount
