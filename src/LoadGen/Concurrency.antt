-- ===== src/LoadGen/Concurrency.antt =====
-- load_generator/strategy.py: `ConcurrencyStrategy`, on the session that it drives. The semaphore is
-- the number of its permits; while there is none the strategy waits.
pub mod Permits
use endpoints.Base.{
  ℕ, ◌+◌, ◌-◌, Bool, true, false, ◌||◌, Option, none, some, List, [], ◌∷◌, String, ◌==◌,
  if◌then◌else◌, length,
}
use endpoints.Base.Dict.{Dict}
use endpoints.Core.Output.{Json}
use endpoints.LoadGen.State.{PhaseIssuer, Session}
use endpoints.LoadGen.Issuer.{Call, Answer, accepted, refused, raised, issue}
use endpoints.LoadGen.Responses.{QueryResult, handle_query_result}

pub record Concurrency : Type 0 where
  pub session : Session
  pub permits : ℕ
  pub finished : Bool

-- The constructor's check; `none` is `ValueError`.
unfoldable pub new_concurrency : ℕ → Session → Option Concurrency
new_concurrency target s =
    if target == 0 then none else some (record { session = s; permits = target; finished = false })

-- `if phase_issuer.issue(idx) is None: self._sem.release(); break`, after the acquisition. An exception
-- ends the strategy too, and its permit is not given back.
abbrev pub after_issue : ℕ → Answer → Session → Concurrency
after_issue permits refused s = record { session = s; permits = permits; finished = true }
after_issue permits (accepted id) s = record {
  session = s;
  permits = permits - 1;
  finished = false;
}
after_issue permits raised s = record { session = s; permits = permits - 1; finished = true }

abbrev issue_at : (ℕ → Option (Dict Json)) → Call → Option PhaseIssuer → Concurrency → Concurrency
issue_at load_sample c none x = x
issue_at load_sample c (some p) x =
    let (answer, s) = issue load_sample c p x.session in after_issue x.permits answer s

-- one round of the loop of `execute`
unfoldable pub next_issue : (ℕ → Option (Dict Json)) → Call → Concurrency → Concurrency
next_issue load_sample c x =
    if x.finished || x.permits == 0 then x else issue_at load_sample c x.session.issuer x

-- a result: the session tells the strategy of it, or does not, and each telling releases a permit
unfoldable pub receive : QueryResult → ℕ → Concurrency → Concurrency
receive r now x =
    let s = handle_query_result r now x.session in
    record x {
      session = s;
      permits = x.permits + (length s.strategy_told - length x.session.strategy_told);
    }

-- What drives the strategy: the loop's next round, with the arguments of its call, or a result.
pub data Turn : Type 0 where
  next : Call → Turn
  got : QueryResult → ℕ → Turn

unfoldable pub take_turn : (ℕ → Option (Dict Json)) → Turn → Concurrency → Concurrency
take_turn load_sample (next c) x = next_issue load_sample c x
take_turn load_sample (got r now) x = receive r now x

unfoldable pub take_turns : (ℕ → Option (Dict Json)) → List Turn → Concurrency → Concurrency
take_turns load_sample [] x = x
take_turns load_sample (t ∷ ts) x = take_turns load_sample ts (take_turn load_sample t x)
