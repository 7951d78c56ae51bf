-- ===== src/LoadGen/Agentic/Linked.antt =====
-- load_generator/agentic_inference_strategy.py: how the conversations that are active belong to the
-- queries in flight and the delayed turns.
use endpoints.Base.{
  ℕ, ◌+◌, ◌≤◌, ◌<◌, true, false, ◌≡◌, ◌⊎◌, Option, some, [], String, str_eq, get_elem?,
}
use endpoints.Base.Dict.{Dict, lookup, contains}
use endpoints.Base.Tally.{one_if, keys, values}
use endpoints.Core.Output.{Json, ErrorData}
use endpoints.LoadGen.Issuer.{accepted}
use endpoints.LoadGen.Conversation.{Conversations}
use endpoints.LoadGen.Trajectories.{
  ConversationTurn, Plan, Instance, instance_at, trajectory_budget,
}
use endpoints.LoadGen.Agentic.{Active, Issuer, Strategy}
use endpoints.LoadGen.Agentic.Load.{load}

-- What the strategy relies on: the identifier of a query has not been given before.
pub record GivesFresh {S : Type 0} (ops : Issuer S) : Type 1 where
  pub Taken : S → String → Type 0
  pub fresh :
      (t : ConversationTurn) (c : String) (o : Option (Dict Json)) (s : S) (q : String)
      → (ops.issue t c o s).0 ≡ accepted q
      → ¬ Taken s q
  pub marked :
      (t : ConversationTurn) (c : String) (o : Option (Dict Json)) (s : S) (q : String)
      → (ops.issue t c o s).0 ≡ accepted q
      → Taken (ops.issue t c o s).1 q
  pub kept_issue :
      (t : ConversationTurn) (c : String) (o : Option (Dict Json)) (s : S) (q : String)
      → Taken s q
      → Taken (ops.issue t c o s).1 q
  pub kept_skip :
      (t : ConversationTurn) (c : String) (s : S) (q : String)
      → Taken s q
      → Taken (ops.register_skipped t c s).1 q
  pub kept_stop : (s : S) (q : String) → Taken s q → Taken (ops.stop_performance_tracking s) q
  pub kept_time_out : (r : String) (s : S) (q : String) → Taken s q → Taken (ops.time_out r s).1 q
  pub kept_report :
      (r : String) (i : String × Option ℕ) (e : ErrorData) (s : S) (q : String)
      → Taken s q
      → Taken (ops.report r i e s) q

-- Each active conversation has one outstanding turn, but for a conversation that `hole` counts.
pub record Linked (plan : Plan) (hole : String → ℕ) (delays : Dict ConversationTurn)
    (inflight : Dict String) (active : Dict Active) (started : ℕ) (known : Conversations)
    : Type 0 where
  pub balanced : (c : String) → keys c delays + values c inflight + hole c ≡ keys c active
  pub single : (c : String) → keys c active ≤ 1
  pub due :
      (c : String) (t : ConversationTurn)
      → lookup c delays ≡ some t
      → (st : Active) × (lookup c active ≡ some st) × (get_elem? st.turns st.cursor ≡ some t)
  pub drawn :
      (c : String)
      → 0 < keys c active
      → (k : ℕ) × (i : Instance) × (k < started)
        × (instance_at plan k ≡ some i)
        × (i.logical_id ≡ c)
  pub met : (c : String) → 0 < keys c active → contains c known ≡ true

abbrev pub at : String → String → ℕ
at conv c = one_if (str_eq conv c)

abbrev pub nowhere : String → ℕ
nowhere c = 0

module _ (plan : Plan) {S : Type 0} {ops : Issuer S} (laws : GivesFresh ops) where
  -- The state between the methods. Once the strategy stops, only the queries in flight matter.
  pub record Ready (hole : String → ℕ) (a : Strategy S) : Type 0 where
    pub linked :
        a.stopping ≡ false → Linked plan hole a.delays a.inflight a.active a.started a.conversations
    pub budgeted : a.started ≤ trajectory_budget plan
    pub idle : a.stopping ≡ true → a.delays ≡ []
    pub known : (c : String) → 0 < values c a.inflight → contains c a.conversations ≡ true
    pub taken : (q : String) → 0 < keys q a.inflight → laws.Taken a.issuer q

  -- the state in which `execute` waits for something that will come
  pub record IsLive (a : Strategy S) : Type 0 where
    pub ready : Ready nowhere a
    pub waiting : 0 < load a

  abbrev pub Result : Strategy S → Type 0
  Result a = (a.all_done ≡ true) ⊎ IsLive a
