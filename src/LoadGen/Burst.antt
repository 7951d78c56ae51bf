-- ===== src/LoadGen/Burst.antt =====
-- load_generator/strategy.py: `BurstStrategy`, on the session that it drives. The sample order is an
-- iterator on a state `O`: its next index (`none` is `StopIteration`) and the state after it.
pub mod Order
pub mod Sent
pub mod Runs
use endpoints.Base.{ℕ, Bool, true, false, if◌then◌else◌, Option, none, some, List, [], ◌∷◌}
use endpoints.Base.Dict.{Dict}
use endpoints.Core.Output.{Json}
use endpoints.LoadGen.State.{PhaseIssuer, Session}
use endpoints.LoadGen.Issuer.{Call, Answer, accepted, refused, raised, issue}
use endpoints.LoadGen.Responses.{QueryResult, handle_query_result}
use endpoints.LoadGen.Concurrency.{Turn, next, got}

-- `pending` while `issue_next` is scheduled on the loop; then `done` is set, and with an exception
-- `error` too.
pub data Progress : Type 0 where
  pending ended failed : Progress

abbrev pub is_pending : Progress → Bool
is_pending pending = true
is_pending ended = false
is_pending failed = false

pub record Burst (O : Type 0) : Type 0 where
  pub session : Session
  pub order : O
  pub progress : Progress

-- `phase_issuer.issue(idx)` with the defaults of its other arguments
abbrev pub plain : Call → ℕ → Call
plain c idx = record c {
  sample_index = idx;
  data_override = none;
  conversation_id = "";
  turn = none;
}

module _ {O : Type 0} where
  -- `done.set()` on `None`, `call_soon(issue_next)` on an identifier, `error = exc` on an exception
  abbrev pub after_issue : O → Answer × Session → Burst O
  after_issue o (refused, s) = record { session = s; order = o; progress = ended }
  after_issue o (accepted id, s) = record { session = s; order = o; progress = pending }
  after_issue o (raised, s) = record { session = s; order = o; progress = failed }

  module _ (next_index : O → Option ℕ × O) (load_sample : ℕ → Option (Dict Json)) where
    abbrev pub issue_drawn : Call → Option PhaseIssuer → Option ℕ × O → Session → Burst O
    issue_drawn c p (none, o) s = record { session = s; order = o; progress = ended }
    issue_drawn c none (some idx, o) s = record { session = s; order = o; progress = failed }
    issue_drawn c (some p) (some idx, o) s = after_issue o (issue load_sample (plain c idx) p s)

    -- `issue_next`, where it is scheduled
    unfoldable pub issue_next : Call → Burst O → Burst O
    issue_next c b =
        if is_pending b.progress
        then issue_drawn c b.session.issuer (next_index b.order) b.session
        else b

    -- a callback of the loop, or a result, of which the strategy takes no notice
    unfoldable pub burst_turn : Turn → Burst O → Burst O
    unfolding issue_next
    burst_turn (next c) b = issue_next c b
    burst_turn (got r now) b = record b { session = handle_query_result r now b.session }

    unfoldable pub burst_turns : List Turn → Burst O → Burst O
    burst_turns [] b = b
    burst_turns (t ∷ ts) b = burst_turns ts (burst_turn t b)
