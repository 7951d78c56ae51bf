-- ===== src/LoadGen/Agentic/Events.antt =====
-- load_generator/agentic_inference_strategy.py: `execute`, and what the event loop calls while it waits:
-- responses, turn timeouts and delayed turns.
use Prim.Native.String.{◌++◌ as str_append}
use endpoints.Base.{
  ℕ, zero, suc, ◌-◌, true, false, not, Option, none, some, List, [], ◌∷◌, String, ltb,
  if◌then◌else◌, length, drop, is_some,
}
use endpoints.Base.Dict.{lookup, erase}
use endpoints.Core.Output.{ErrorData}
use endpoints.LoadGen.State.{ConvInfo}
use endpoints.LoadGen.Conversation.{Conversations, mark_turn}
use endpoints.LoadGen.Trajectories.{ConversationTurn, Plan, trajectory_budget}
use endpoints.LoadGen.Agentic.{
  Active, Issuer, Strategy, is_empty, has_more_conversation_instances, has_work_remaining,
  signal_done_if_no_inflight, issue_turn_now, finish_conversation, issue_next_turn,
  start_conversation,
}

-- What the event loop calls while `execute` waits.
pub data Event : Type 0 where
  response : String → Option ErrorData → Event
  timeout : String → Event
  delay_ends : String → Event

module _ {S : Type 0} where
  abbrev pub fresh : S → Conversations → Strategy S
  fresh s m = record {
    issuer = s;
    conversations = m;
    active = [];
    inflight = [];
    delays = [];
    started = 0;
    stopping = false;
    tracking_stopped = false;
    all_done = false;
    error = false;
  }

  -- its `finally` block
  unfoldable pub leave : Strategy S → Strategy S
  leave a = record a { delays = []; inflight = [] }

-- the manager after `mark_turn_failed` of a conversation that it knows
abbrev pub or_keep : Option Conversations → Conversations → Conversations
or_keep none m = m
or_keep (some n) m = n

module _ {S : Type 0} (ops : Issuer S) where
  -- The loop of `_abort_remaining_turns` on the manager and the issuer, up to the first refusal. The
  -- conversation is known to the manager: a turn of it has just been marked.
  abbrev pub skipped :
      String
      → ConversationTurn
      → ErrorData
      → Conversations
      → Option String × S
      → (Conversations × S → Conversations × S)
      → Conversations × S
  skipped conv t e m (none, s) rest = (m, s)
  skipped conv t e m (some q, s) rest = rest (m, ops.report q (conv, some t.1) e s)

  unfoldable pub skip_turns :
      String → ErrorData → List ConversationTurn → Conversations × S → Conversations × S
  skip_turns conv e [] ms = ms
  skip_turns conv e (t ∷ ts) (m, s) =
      skipped conv t e (or_keep (mark_turn true conv m) m) (ops.register_skipped t conv s)
        (λ ms. skip_turns conv e ts ms)

  abbrev pub remaining_turns : Option Active → List ConversationTurn
  remaining_turns none = []
  remaining_turns (some st) = drop st.cursor st.turns

  -- `_abort_remaining_turns`
  unfoldable pub abort_remaining_turns : String → String → Strategy S → Strategy S
  unfolding skip_turns
  abort_remaining_turns conv reason a =
      let e : ErrorData = record {
        error_type = "TurnAbortedByPriorFailure";
        error_message = reason;
      } in
      let (m, s) =
        skip_turns conv e (remaining_turns (lookup conv a.active)) (a.conversations, a.issuer) in
      record a {
        delays = erase conv a.delays;
        active = erase conv a.active;
        conversations = m;
        issuer = s;
      }

abbrev pub min : ℕ → ℕ → ℕ
min m n = if ltb n m then n else m

module _ (plan : Plan) where
  -- `_initial_conversations_to_start`
  abbrev pub wanted : Option ℕ → ℕ
  wanted none = length plan.base_convs
  wanted (some n) = if ltb 0 n then n else length plan.base_convs

  unfoldable pub initial_conversations_to_start : ℕ
  initial_conversations_to_start =
      if is_empty plan.base_convs
      then 0
      else min (wanted plan.target_concurrency) (trajectory_budget plan)

module _ (plan : Plan) {S : Type 0} (ops : Issuer S) where
  -- `_fill_slot`, on fuel: each call of it from itself has started a conversation
  unfoldable pub fill_on : ℕ → Strategy S → Strategy S
  unfolding start_conversation
  fill_on zero a = a
  fill_on (suc fuel) a =
      if a.stopping
      then signal_done_if_no_inflight a
      else if has_more_conversation_instances plan a
      then start_conversation plan ops (fill_on fuel) a
      else if not (has_work_remaining plan a)
      then record a { all_done = true }
      else a

  -- one more than the trajectories that are left
  unfoldable pub fill_slot : Strategy S → Strategy S
  unfolding fill_on
  fill_slot a = fill_on (suc (trajectory_budget plan - a.started)) a

  -- `on_sample_complete`, for a query of the conversation: after a turn was marked (`none` is `KeyError`)
  abbrev pub after_mark : String → Option ErrorData → Option Conversations → Strategy S → Strategy S
  after_mark conv e none a = fill_slot (record a { active = erase conv a.active })
  after_mark conv (some e) (some m) a = finish_conversation plan ops fill_slot conv (
      abort_remaining_turns ops conv (str_append "prior turn errored: " e.error_type)
        (record a { conversations = m }))
  after_mark conv none (some m) a =
      if a.stopping
      then signal_done_if_no_inflight (record a { conversations = m })
      else issue_next_turn plan ops fill_slot conv (record a { conversations = m })

  abbrev pub routed : String → Option ErrorData → Option String → Strategy S → Strategy S
  routed q e none a = a
  routed q e (some conv) a =
      after_mark conv e (mark_turn (is_some e) conv a.conversations)
        (record a { inflight = erase q a.inflight })

  -- `on_sample_complete`, of a result by its identifier and its error
  unfoldable pub on_sample_complete : String → Option ErrorData → Strategy S → Strategy S
  unfolding fill_slot finish_conversation issue_next_turn abort_remaining_turns
  on_sample_complete q e a = routed q e (lookup q a.inflight) a

  -- `_handle_timeout`: the issuer forgets the query, the turn is marked (`KeyError` leaves the callback
  -- at once), the failure is reported, and the conversation ends
  abbrev pub after_timeout :
      String → String → ConvInfo → Option Conversations → Strategy S → Strategy S
  after_timeout q conv info none a = a
  after_timeout q conv info (some m) a =
      let e : ErrorData = record {
        error_type = "TurnTimeout";
        error_message = str_append "turn timeout after " (str_append plan.turn_timeout_s "s");
      } in
      let reason = str_append "prior turn timed out (query=" (str_append q ")") in
      finish_conversation plan ops fill_slot conv (
        abort_remaining_turns ops conv reason
          (record a { conversations = m; issuer = ops.report q info e a.issuer }))

  abbrev pub timed_out : String → Option String → Strategy S → Strategy S
  timed_out q none a = a
  timed_out q (some conv) a =
      let (info, s) = ops.time_out q a.issuer in
      after_timeout q conv info (mark_turn true conv a.conversations)
        (record a { inflight = erase q a.inflight; issuer = s })

  unfoldable pub handle_timeout : String → Strategy S → Strategy S
  unfolding fill_slot finish_conversation abort_remaining_turns
  handle_timeout q a = timed_out q (lookup q a.inflight) a

  -- the timer of a delayed turn, if it has not been cancelled
  abbrev pub delay_over : String → Option ConversationTurn → Strategy S → Strategy S
  delay_over conv none a = a
  delay_over conv (some t) a = issue_turn_now plan ops conv t a

  unfoldable pub end_delay : String → Strategy S → Strategy S
  unfolding issue_turn_now
  end_delay conv a = delay_over conv (lookup conv a.delays) a

  -- the loop of `execute`, which an exception leaves
  unfoldable pub start_all : ℕ → Strategy S → Strategy S
  unfolding start_conversation fill_slot
  start_all zero a = a
  start_all (suc n) a =
      let b = start_conversation plan ops fill_slot a in
      let rest = start_all n b in if b.error then b else rest

  -- `execute` up to its wait; without work it does not wait, as if `_all_done` were set
  unfoldable pub begin : S → Conversations → Strategy S
  unfolding start_all initial_conversations_to_start
  begin s m =
      let a = start_all (initial_conversations_to_start plan) (fresh s m) in
      if has_work_remaining plan a then a else record a { all_done = true }

  unfoldable pub take_event : Event → Strategy S → Strategy S
  unfolding on_sample_complete handle_timeout end_delay
  take_event (response q e) a = on_sample_complete q e a
  take_event (timeout q) a = handle_timeout q a
  take_event (delay_ends conv) a = end_delay conv a

  unfoldable pub take_events : List Event → Strategy S → Strategy S
  unfolding take_event
  take_events [] a = a
  take_events (e ∷ es) a = take_events es (take_event e a)
