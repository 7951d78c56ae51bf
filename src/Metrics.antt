-- ===== src/Metrics.antt =====
-- async_utils/services/metrics_aggregator/ and metrics/: the metrics pipeline.
pub mod Series
pub mod Counters
pub mod Collector
pub mod Queue
pub mod Table
pub mod Publisher
pub mod Aggregator
pub mod EarlyStopping
