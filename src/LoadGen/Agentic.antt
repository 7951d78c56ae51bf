-- ===== src/LoadGen/Agentic.antt =====
-- load_generator/agentic_inference_strategy.py: the state of `AgenticInferenceStrategy`, and how it
-- starts, continues and ends conversations. The phase issuer is an interface; `order` gives the draws
-- of the sample order. Asserts on the event loop, the issuer and the event are left out.
pub mod Events
pub mod Load
pub mod Budget
pub mod Concurrency
pub mod Linked
pub mod Issued
pub mod Erased
pub mod Filled
pub mod Opened
pub mod Started
pub mod Done
pub mod Aborted
pub mod Waiting
pub mod Effort
pub mod Finite
pub mod Progress
pub mod Live
pub mod Ends
pub mod OnSession
pub mod Identifiers
use endpoints.Base.{
  ℕ, zero, suc, ◌+◌, ◌-◌, ◌/◌, ◌%◌, Bool, true, false, ◌&&◌, ◌||◌, not, Option, none, some, List,
  [], ◌∷◌, String, ◌==◌, ltb, if◌then◌else◌, length, get_elem?, is_some,
}
use endpoints.Base.Dict.{Dict, lookup, insert, erase}
use endpoints.Core.Output.{Json, ErrorData}
use endpoints.LoadGen.State.{ConvInfo}
use endpoints.LoadGen.Issuer.{Answer, refused, accepted, raised}
use endpoints.LoadGen.Trajectories.{
  ConversationTurn, Plan, Instance, trajectory_budget, instance_at,
}
use endpoints.LoadGen.Conversation.{Conversations, get_or_create}

-- `ActiveConversationState`
pub record Active : Type 0 where
  pub source_id : String
  pub turns : List ConversationTurn
  pub cursor : ℕ
  pub repeat_id : ℕ

-- `PhaseIssuerProtocol`, as far as the strategy uses it, on the issuer's state. `time_out` is what
-- `_handle_timeout` does to the issuer, with the query's conversation; `report` is the publisher and
-- the callback of `_publish_synthetic_failure`.
pub record Issuer (S : Type 0) : Type 0 where
  pub issue : ConversationTurn → String → Option (Dict Json) → S → Answer × S
  pub register_skipped : ConversationTurn → String → S → Option String × S
  pub stop_performance_tracking : S → S
  pub time_out : String → S → ConvInfo × S
  pub report : String → ConvInfo → ErrorData → S → S

-- `error` says that `_error` is set, or that `execute` raised; a timeout handle has no state beside
-- its query's entry of `inflight`.
pub record Strategy (S : Type 0) : Type 0 where
  pub issuer : S
  pub conversations : Conversations
  pub active : Dict Active
  pub inflight : Dict String
  pub delays : Dict ConversationTurn
  pub started : ℕ
  pub stopping : Bool
  pub tracking_stopped : Bool
  pub all_done : Bool
  pub error : Bool

abbrev pub is_empty {ℓ} : {A : Type ℓ} → List A → Bool
is_empty [] = true
is_empty (_ ∷ _) = false

abbrev pub same_turn : ConversationTurn → Option ConversationTurn → Bool
same_turn t none = false
same_turn (i, n) (some (j, m)) = i == j && n == m

module _ {S : Type 0} where
  -- an exception that is kept in `_error`
  abbrev pub fail : Strategy S → Strategy S
  fail a = record a { error = true; all_done = true }

  abbrev pub signal_done_if_no_inflight : Strategy S → Strategy S
  signal_done_if_no_inflight a = if is_empty a.inflight then record a { all_done = true } else a

  unfoldable pub request_stop_issuing : Strategy S → Strategy S
  request_stop_issuing a =
      signal_done_if_no_inflight
        (if a.stopping then a else record a { stopping = true; delays = []; active = [] })

  -- `_issue_turn_now`: its end, on the issuer's answer
  abbrev pub after_issue : String → Active → Answer × S → Strategy S → Strategy S
  after_issue conv st (refused, s) a = request_stop_issuing (record a { issuer = s })
  after_issue conv st (raised, s) a = fail (record a { issuer = s })
  after_issue conv st (accepted q, s) a = record a {
    issuer = s;
    active = insert conv (record st { cursor = st.cursor + 1 }) a.active;
    inflight = insert q conv a.inflight;
  }

module _ (plan : Plan) {S : Type 0} where
  abbrev pub has_more_conversation_instances : Strategy S → Bool
  has_more_conversation_instances a =
      not (is_empty plan.base_convs) && ltb a.started (trajectory_budget plan)

  abbrev pub has_work_remaining : Strategy S → Bool
  has_work_remaining a =
      let waiting = not (is_empty a.inflight) || not (is_empty a.delays) in
      if a.stopping
      then waiting
      else not (is_empty a.active) || waiting || has_more_conversation_instances a

module _ {S : Type 0} (ops : Issuer S) where
  unfoldable pub stop_tracking : Strategy S → Strategy S
  stop_tracking a =
      if a.tracking_stopped
      then a
      else record a { tracking_stopped = true; issuer = ops.stop_performance_tracking a.issuer }

  abbrev pub issue_data :
      String → ConversationTurn → Active → Option (Option (Dict Json)) → Strategy S → Strategy S
  issue_data conv t st none a = fail a
  issue_data conv t st (some o) a = after_issue conv st (ops.issue t conv o a.issuer) a

module _ (plan : Plan) {S : Type 0} (ops : Issuer S) where
  abbrev pub issue_active : String → ConversationTurn → Option Active → Strategy S → Strategy S
  issue_active conv t none a = a
  issue_active conv t (some st) a =
      if same_turn t (get_elem? st.turns st.cursor)
      then issue_data ops conv t st (plan.data_override st.source_id t.1 st.repeat_id) a
      else a

  unfoldable pub issue_turn_now : String → ConversationTurn → Strategy S → Strategy S
  unfolding request_stop_issuing
  issue_turn_now conv t b =
      let a = record b { delays = erase conv b.delays } in
      if a.stopping then a else issue_active conv t (lookup conv a.active) a

  -- The methods that call each other through `_fill_slot`, which is `fill`.
  module _ (fill : Strategy S → Strategy S) where
    unfoldable pub finish_conversation : String → Strategy S → Strategy S
    unfolding request_stop_issuing stop_tracking
    finish_conversation conv b =
        let a = record b { active = erase conv b.active } in
        if has_more_conversation_instances plan a
        then fill a
        else if plan.stop_issuing_on_first_user_complete
        then request_stop_issuing (stop_tracking ops a)
        else fill (stop_tracking ops a)

    abbrev pub schedule : String → Active → Option ConversationTurn → Strategy S → Strategy S
    schedule conv st none a = finish_conversation conv a
    schedule conv st (some t) a =
        if plan.delayed st.source_id t.1
        then record a { delays = insert conv t a.delays }
        else issue_turn_now conv t a

    abbrev pub next_of : String → Option Active → Strategy S → Strategy S
    next_of conv none a = a
    next_of conv (some st) a = schedule conv st (get_elem? st.turns st.cursor) a

    unfoldable pub issue_next_turn : String → Strategy S → Strategy S
    unfolding finish_conversation issue_turn_now
    issue_next_turn conv a = if a.stopping then a else next_of conv (lookup conv a.active) a

    -- a conversation that is drawn; a draw out of range is an exception
    abbrev pub start_instance : Option Instance → Strategy S → Strategy S
    start_instance none a = fail a
    start_instance (some i) a = issue_next_turn i.logical_id (record a {
      started = a.started + 1;
      conversations = (get_or_create i.logical_id (some (length i.turns)) a.conversations).1;
      active =
          insert i.logical_id
            (record {
              source_id = i.source_id;
              turns = i.turns;
              cursor = 0;
              repeat_id = i.repeat_id;
            })
            a.active;
    })

    unfoldable pub start_conversation : Strategy S → Strategy S
    unfolding issue_next_turn
    start_conversation a =
        if a.stopping
        then a
        else if has_more_conversation_instances plan a
        then start_instance (instance_at plan a.started) a
        else fill a
