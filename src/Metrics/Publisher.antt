-- ===== src/Metrics/Publisher.antt =====
-- metrics_aggregator/publisher.py: the one terminal snapshot. Writing the file and the pub/sub send are
-- I/O; `written` lists the snapshots handed to them. `ticking` says that the tick task exists.
use endpoints.Base.{ℕ, ◌+◌, Bool, true, false, Option, List, [], ◌∷◌, ◌++◌, if◌then◌else◌}
use endpoints.Metrics.Counters.{Counters}
use endpoints.Metrics.Collector.{Collector}

pub data SessionState : Type 0 where
  initialize live draining complete interrupted : SessionState

-- `steady_state` is the collector whose series is analysed, or `none` where no verdict is computed.
pub record Snapshot : Type 0 where
  pub counter : ℕ
  pub state : SessionState
  pub n_pending_tasks : ℕ
  pub counters : Counters
  pub steady_state : Option Collector

pub record Publisher : Type 0 where
  pub emitted : ℕ
  pub ticking : Bool
  pub finalized : Bool
  pub closed : Bool
  pub written : List Snapshot

abbrev pub new_publisher : Publisher
new_publisher = record {
  emitted = 0;
  ticking = false;
  finalized = false;
  closed = false;
  written = [];
}

-- `start`: a second call is a no-op
unfoldable pub start : Publisher → Publisher
start p = if p.ticking then p else record p { ticking = true }

abbrev pub terminal_state : Bool → SessionState
terminal_state stopped = if stopped then interrupted else complete

-- `publish_final` with `_publish_final_locked`
unfoldable pub publish_final : Counters → ℕ → Bool → Option Collector → Publisher → Publisher
publish_final counters n_pending stopped steady p = if p.finalized then p else record p {
  finalized = true;
  ticking = false;
  emitted = p.emitted + 1;
  written =
      p.written
      ++ record {
        counter = p.emitted + 1;
        state = terminal_state stopped;
        n_pending_tasks = n_pending;
        counters = counters;
        steady_state = steady;
      }
        ∷ [];
}

-- `aclose`
unfoldable pub close : Publisher → Publisher
close p = if p.closed then p else record p { closed = true; ticking = false }
