-- ===== src/LoadGen/Agentic/Budget.antt =====
-- load_generator/agentic_inference_strategy.py: the strategy starts no more trajectories than its budget.
use endpoints.Base.{
  ℕ, zero, suc, ◌+◌, ◌-◌, ◌≤◌, Bool, true, ◌≡◌, not, ◌&&◌, ltb→lt, Option, none, some, List, [],
  ◌∷◌, String, if_both, get_elem?, is_some, arith,
}
use endpoints.Base.Dict.{Dict, lookup, erase}
use endpoints.Core.Output.{Json, ErrorData}
use endpoints.LoadGen.State.{ConvInfo}
use endpoints.LoadGen.Issuer.{Answer, refused, accepted, raised}
use endpoints.LoadGen.Conversation.{Conversations, mark_turn}
use endpoints.LoadGen.Trajectories.{
  ConversationTurn, Plan, Instance, trajectory_budget, instance_at,
}
use endpoints.LoadGen.Agentic.{
  Active, Issuer, Strategy, is_empty, has_more_conversation_instances, has_work_remaining,
  signal_done_if_no_inflight, request_stop_issuing, stop_tracking, after_issue, issue_data,
  same_turn, issue_active, issue_turn_now, finish_conversation, schedule, next_of, issue_next_turn,
  start_instance, start_conversation,
}
use endpoints.LoadGen.Agentic.Events.{
  fill_on, fill_slot, abort_remaining_turns, after_mark, routed, on_sample_complete, after_timeout,
  timed_out, handle_timeout, delay_over, end_delay, initial_conversations_to_start, start_all,
  fresh, begin, Event, response, timeout, delay_ends, take_event, take_events,
}

second_true : (a b : Bool) → (a && b) ≡ true → b ≡ true
second_true a b h = ground arith

module _ (plan : Plan) {S : Type 0} (ops : Issuer S) where
  abbrev pub InBudget : Strategy S → Type 0
  InBudget a = a.started ≤ trajectory_budget plan

  signal-InBudget : (a : Strategy S) → InBudget a → InBudget (signal_done_if_no_inflight a)
  signal-InBudget a h = if_both InBudget (is_empty a.inflight) (λ _. h) (λ _. h)

  request-InBudget : (a : Strategy S) → InBudget a → InBudget (request_stop_issuing a)
  unfolding request_stop_issuing
  request-InBudget a h = signal-InBudget _ (if_both InBudget a.stopping (λ _. h) (λ _. h))

  tracking-InBudget : (a : Strategy S) → InBudget a → InBudget (stop_tracking ops a)
  unfolding stop_tracking
  tracking-InBudget a h = if_both InBudget a.tracking_stopped (λ _. h) (λ _. h)

  after_issue-InBudget :
      (conv : String) (st : Active) (r : Answer × S) (a : Strategy S)
      → InBudget a
      → InBudget (after_issue conv st r a)
  after_issue-InBudget conv st (refused, s) a h = request-InBudget (record a { issuer = s }) h
  after_issue-InBudget conv st (raised, s) a h = h
  after_issue-InBudget conv st (accepted q, s) a h = h

  data-InBudget :
      (conv : String) (t : ConversationTurn) (st : Active) (o : Option (Option (Dict Json)))
      (a : Strategy S)
      → InBudget a
      → InBudget (issue_data ops conv t st o a)
  data-InBudget conv t st none a h = h
  data-InBudget conv t st (some o) a h =
      after_issue-InBudget conv st (ops.issue t conv o a.issuer) a h

  active-InBudget :
      (conv : String) (t : ConversationTurn) (o : Option Active) (a : Strategy S)
      → InBudget a
      → InBudget (issue_active plan ops conv t o a)
  active-InBudget conv t none a h = h
  active-InBudget conv t (some st) a h =
      if_both InBudget (same_turn t (get_elem? st.turns st.cursor))
        (λ _. data-InBudget conv t st (plan.data_override st.source_id t.1 st.repeat_id) a h)
        (λ _. h)

  now-InBudget :
      (conv : String) (t : ConversationTurn) (a : Strategy S)
      → InBudget a
      → InBudget (issue_turn_now plan ops conv t a)
  unfolding issue_turn_now
  now-InBudget conv t a h =
      if_both InBudget a.stopping (λ _. h)
        (λ _.
          active-InBudget conv t (lookup conv a.active) (record a { delays = erase conv a.delays })
            h)

  module _ (fill : Strategy S → Strategy S)
      (ok : (a : Strategy S) → InBudget a → InBudget (fill a)) where
    finish-InBudget :
        (conv : String) (a : Strategy S)
        → InBudget a
        → InBudget (finish_conversation plan ops fill conv a)
    unfolding finish_conversation
    finish-InBudget conv b h =
        let a = record b { active = erase conv b.active } in
        let stopped = tracking-InBudget a h in
        if_both InBudget (has_more_conversation_instances plan a) (λ _. ok a h)
          (λ _.
            if_both InBudget plan.stop_issuing_on_first_user_complete
              (λ _. request-InBudget (stop_tracking ops a) stopped)
              (λ _. ok (stop_tracking ops a) stopped))

    schedule-InBudget :
        (conv : String) (st : Active) (o : Option ConversationTurn) (a : Strategy S)
        → InBudget a
        → InBudget (schedule plan ops fill conv st o a)
    schedule-InBudget conv st none a h = finish-InBudget conv a h
    schedule-InBudget conv st (some t) a h =
        if_both InBudget (plan.delayed st.source_id t.1) (λ _. h) (λ _. now-InBudget conv t a h)

    next-InBudget :
        (conv : String) (a : Strategy S)
        → InBudget a
        → InBudget (issue_next_turn plan ops fill conv a)
    unfolding issue_next_turn
    next-InBudget conv a h =
        if_both InBudget a.stopping (λ _. h) (λ _. next_of-InBudget (lookup conv a.active))
      where
        next_of-InBudget : (o : Option Active) → InBudget (next_of plan ops fill conv o a)
        next_of-InBudget none = h
        next_of-InBudget (some st) = schedule-InBudget conv st (get_elem? st.turns st.cursor) a h

    -- a trajectory is started only below the budget
    start-InBudget : (a : Strategy S) → InBudget a → InBudget (start_conversation plan ops fill a)
    unfolding start_conversation
    start-InBudget a h =
        if_both InBudget a.stopping (λ _. h)
          (λ _.
            if_both InBudget (has_more_conversation_instances plan a)
              (λ more.
                let below =
                  ltb→lt a.started (trajectory_budget plan)
                    (second_true (not (is_empty plan.base_convs)) _ more) in
                let next : a.started + 1 ≤ trajectory_budget plan = omega (arith, below) in
                instance-InBudget next (instance_at plan a.started))
              (λ _. ok a h))
      where
        instance-InBudget :
            a.started + 1 ≤ trajectory_budget plan
            → (o : Option Instance) → InBudget (start_instance plan ops fill o a)
        instance-InBudget more none = h
        instance-InBudget more (some i) = next-InBudget i.logical_id _ more

  fill_on-InBudget : (fuel : ℕ) (a : Strategy S) → InBudget a → InBudget (fill_on plan ops fuel a)
  unfolding fill_on
  fill_on-InBudget zero a h = h
  fill_on-InBudget (suc fuel) a h =
      if_both InBudget a.stopping (λ _. signal-InBudget a h)
        (λ _.
          if_both InBudget (has_more_conversation_instances plan a)
            (λ _. start-InBudget (fill_on plan ops fuel) (λ b. fill_on-InBudget fuel b) a h)
            (λ _. if_both InBudget (not (has_work_remaining plan a)) (λ _. h) (λ _. h)))

  fill_slot-InBudget : (a : Strategy S) → InBudget a → InBudget (fill_slot plan ops a)
  unfolding fill_slot
  fill_slot-InBudget a h = fill_on-InBudget (suc (trajectory_budget plan - a.started)) a h

  aborted-InBudget :
      (conv reason : String) (a : Strategy S)
      → InBudget a
      → InBudget (
          finish_conversation plan ops
            (fill_slot plan ops)
            conv
            (abort_remaining_turns ops conv reason a))
  unfolding abort_remaining_turns
  aborted-InBudget conv reason a h =
      finish-InBudget (fill_slot plan ops) fill_slot-InBudget conv
        (abort_remaining_turns ops conv reason a) h

  after_mark-InBudget :
      (conv : String) (e : Option ErrorData) (o : Option Conversations) (a : Strategy S)
      → InBudget a
      → InBudget (after_mark plan ops conv e o a)
  after_mark-InBudget conv e none a h = fill_slot-InBudget _ h
  after_mark-InBudget conv (some e) (some m) a h =
      aborted-InBudget conv _ (record a { conversations = m }) h
  after_mark-InBudget conv none (some m) a h =
      if_both InBudget a.stopping (λ _. signal-InBudget (record a { conversations = m }) h)
        (λ _.
          next-InBudget (fill_slot plan ops) fill_slot-InBudget conv
            (record a { conversations = m }) h)

  after_timeout-InBudget :
      (q conv : String) (info : ConvInfo) (o : Option Conversations) (a : Strategy S)
      → InBudget a
      → InBudget (after_timeout plan ops q conv info o a)
  after_timeout-InBudget q conv info none a h = h
  after_timeout-InBudget q conv info (some m) a h = aborted-InBudget conv _ _ h

  event-InBudget : (e : Event) (a : Strategy S) → InBudget a → InBudget (take_event plan ops e a)
  unfolding take_event on_sample_complete handle_timeout end_delay
  event-InBudget (response q e) a h = go (lookup q a.inflight)
    where
      go : (o : Option String) → InBudget (routed plan ops q e o a)
      go none = h
      go (some conv) =
          after_mark-InBudget conv e (mark_turn (is_some e) conv a.conversations)
            (record a { inflight = erase q a.inflight }) h
  event-InBudget (timeout q) a h = go (lookup q a.inflight)
    where
      go : (o : Option String) → InBudget (timed_out plan ops q o a)
      go none = h
      go (some conv) =
          after_timeout-InBudget q conv (ops.time_out q a.issuer).0
            (mark_turn true conv a.conversations)
            (record a { inflight = erase q a.inflight; issuer = (ops.time_out q a.issuer).1 }) h
  event-InBudget (delay_ends conv) a h = go (lookup conv a.delays)
    where
      go : (o : Option ConversationTurn) → InBudget (delay_over plan ops conv o a)
      go none = h
      go (some t) = now-InBudget conv t a h

  events-InBudget :
      (es : List Event) (a : Strategy S) → InBudget a → InBudget (take_events plan ops es a)
  unfolding take_events
  events-InBudget [] a h = h
  events-InBudget (e ∷ es) a h = events-InBudget es (take_event plan ops e a) (event-InBudget e a h)

  start_all-InBudget : (k : ℕ) (a : Strategy S) → InBudget a → InBudget (start_all plan ops k a)
  unfolding start_all
  start_all-InBudget zero a h = h
  start_all-InBudget (suc k) a h =
      let b = start_conversation plan ops (fill_slot plan ops) a in
      let first = start-InBudget (fill_slot plan ops) fill_slot-InBudget a h in
      if_both InBudget b.error (λ _. first) (λ _. start_all-InBudget k b first)

  begin-InBudget : (s : S) (m : Conversations) → InBudget (begin plan ops s m)
  unfolding begin
  begin-InBudget s m =
      let k = initial_conversations_to_start plan in
      let a = start_all plan ops k (fresh s m) in
      let h : InBudget a = start_all-InBudget k (fresh s m) (omega arith) in
      if_both InBudget (has_work_remaining plan a) (λ _. h) (λ _. h)

  pub take_events-InBudget :
      (es : List Event) (s : S) (m : Conversations)
      → InBudget (take_events plan ops es (begin plan ops s m))
  take_events-InBudget es s m = events-InBudget es (begin plan ops s m) (begin-InBudget s m)
