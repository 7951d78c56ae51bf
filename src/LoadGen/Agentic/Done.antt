-- ===== src/LoadGen/Agentic/Done.antt =====
-- load_generator/agentic_inference_strategy.py: once the strategy is done it stays done.
use endpoints.Base.{
  ℕ, zero, suc, ◌-◌, true, not, ◌≡◌, refl, Option, none, some, String, if_both, get_elem?, is_some,
}
use endpoints.Base.Dict.{Dict, lookup, erase}
use endpoints.Core.Output.{Json, ErrorData}
use endpoints.LoadGen.State.{ConvInfo}
use endpoints.LoadGen.Issuer.{Answer, refused, accepted, raised}
use endpoints.LoadGen.Conversation.{Conversations, mark_turn}
use endpoints.LoadGen.Trajectories.{
  ConversationTurn, Plan, Instance, trajectory_budget, instance_at,
}
use endpoints.LoadGen.Agentic.{
  Active, Issuer, Strategy, is_empty, has_more_conversation_instances, has_work_remaining,
  signal_done_if_no_inflight, request_stop_issuing, stop_tracking, after_issue, issue_data,
  same_turn, issue_active, issue_turn_now, finish_conversation, schedule, next_of, issue_next_turn,
  start_instance, start_conversation,
}
use endpoints.LoadGen.Agentic.Events.{
  fill_on, fill_slot, abort_remaining_turns, after_mark, routed, on_sample_complete, after_timeout,
  timed_out, handle_timeout, delay_over, end_delay, Event, response, timeout, delay_ends,
  take_event,
}

module _ {S : Type 0} where
  abbrev pub IsDone : Strategy S → Type 0
  IsDone a = a.all_done ≡ true

  signal-IsDone : (a : Strategy S) → IsDone a → IsDone (signal_done_if_no_inflight a)
  signal-IsDone a h = if_both IsDone (is_empty a.inflight) (λ _. refl) (λ _. h)

  request-IsDone : (a : Strategy S) → IsDone a → IsDone (request_stop_issuing a)
  unfolding request_stop_issuing
  request-IsDone a h = signal-IsDone _ (if_both IsDone a.stopping (λ _. h) (λ _. h))

module _ (plan : Plan) {S : Type 0} (ops : Issuer S) where
  stop_tracking-IsDone : (a : Strategy S) → IsDone a → IsDone (stop_tracking ops a)
  unfolding stop_tracking
  stop_tracking-IsDone a h = if_both IsDone a.tracking_stopped (λ _. h) (λ _. h)

  issue_turn_now-IsDone :
      (conv : String) (t : ConversationTurn) (a : Strategy S)
      → IsDone a
      → IsDone (issue_turn_now plan ops conv t a)
  unfolding issue_turn_now
  issue_turn_now-IsDone conv t b h =
      let a = record b { delays = erase conv b.delays } in
      if_both IsDone a.stopping (λ _. h) (λ _. active-IsDone (lookup conv a.active) a h)
    where
      answer-IsDone :
          (st : Active) (r : Answer × S) (a : Strategy S)
          → IsDone a
          → IsDone (after_issue conv st r a)
      answer-IsDone st (refused, s) a h = request-IsDone (record a { issuer = s }) h
      answer-IsDone st (raised, s) a h = refl
      answer-IsDone st (accepted q, s) a h = h

      data-IsDone :
          (st : Active) (o : Option (Option (Dict Json))) (a : Strategy S)
          → IsDone a
          → IsDone (issue_data ops conv t st o a)
      data-IsDone st none a h = refl
      data-IsDone st (some o) a h = answer-IsDone st (ops.issue t conv o a.issuer) a h

      active-IsDone :
          (o : Option Active) (a : Strategy S)
          → IsDone a
          → IsDone (issue_active plan ops conv t o a)
      active-IsDone none a h = h
      active-IsDone (some st) a h =
          if_both IsDone (same_turn t (get_elem? st.turns st.cursor))
            (λ _. data-IsDone st (plan.data_override st.source_id t.1 st.repeat_id) a h) (λ _. h)

  module _ (fill : Strategy S → Strategy S)
      (ok : (a : Strategy S) → IsDone a → IsDone (fill a)) where
    finish-IsDone :
        (conv : String) (a : Strategy S)
        → IsDone a
        → IsDone (finish_conversation plan ops fill conv a)
    unfolding finish_conversation
    finish-IsDone conv b h =
        let a = record b { active = erase conv b.active } in
        let t = stop_tracking-IsDone a h in
        if_both IsDone (has_more_conversation_instances plan a) (λ _. ok a h)
          (λ _.
            if_both IsDone plan.stop_issuing_on_first_user_complete
              (λ _. request-IsDone (stop_tracking ops a) t) (λ _. ok (stop_tracking ops a) t))

    issue_next_turn-IsDone :
        (conv : String) (a : Strategy S) → IsDone a → IsDone (issue_next_turn plan ops fill conv a)
    unfolding issue_next_turn
    issue_next_turn-IsDone conv a h =
        if_both IsDone a.stopping (λ _. h) (λ _. next-IsDone (lookup conv a.active))
      where
        schedule-IsDone :
            (st : Active) (o : Option ConversationTurn)
            → IsDone (schedule plan ops fill conv st o a)
        schedule-IsDone st none = finish-IsDone conv a h
        schedule-IsDone st (some t) =
            if_both IsDone (plan.delayed st.source_id t.1) (λ _. h)
              (λ _. issue_turn_now-IsDone conv t a h)

        next-IsDone : (o : Option Active) → IsDone (next_of plan ops fill conv o a)
        next-IsDone none = h
        next-IsDone (some st) = schedule-IsDone st (get_elem? st.turns st.cursor)

    start-IsDone : (a : Strategy S) → IsDone a → IsDone (start_conversation plan ops fill a)
    unfolding start_conversation
    start-IsDone a h =
        if_both IsDone a.stopping (λ _. h)
          (λ _.
            if_both IsDone (has_more_conversation_instances plan a)
              (λ _. instance-IsDone (instance_at plan a.started)) (λ _. ok a h))
      where
        instance-IsDone : (o : Option Instance) → IsDone (start_instance plan ops fill o a)
        instance-IsDone none = refl
        instance-IsDone (some i) = issue_next_turn-IsDone i.logical_id _ h

  fill_on-IsDone : (fuel : ℕ) (a : Strategy S) → IsDone a → IsDone (fill_on plan ops fuel a)
  unfolding fill_on
  fill_on-IsDone zero a h = h
  fill_on-IsDone (suc fuel) a h =
      if_both IsDone a.stopping (λ _. signal-IsDone a h)
        (λ _.
          if_both IsDone (has_more_conversation_instances plan a)
            (λ _. start-IsDone (fill_on plan ops fuel) (fill_on-IsDone fuel) a h)
            (λ _. if_both IsDone (not (has_work_remaining plan a)) (λ _. refl) (λ _. h)))

  fill_slot-IsDone : (a : Strategy S) → IsDone a → IsDone (fill_slot plan ops a)
  unfolding fill_slot
  fill_slot-IsDone a h = fill_on-IsDone (suc (trajectory_budget plan - a.started)) a h

  pub started-IsDone :
      (a : Strategy S) → IsDone a → IsDone (start_conversation plan ops (fill_slot plan ops) a)
  started-IsDone a h = start-IsDone (fill_slot plan ops) fill_slot-IsDone a h

  aborted-IsDone :
      (conv reason : String) (a : Strategy S)
      → IsDone a
      → IsDone (
          finish_conversation plan ops
            (fill_slot plan ops)
            conv
            (abort_remaining_turns ops conv reason a))
  unfolding abort_remaining_turns
  aborted-IsDone conv reason a h =
      finish-IsDone (fill_slot plan ops) fill_slot-IsDone conv
        (abort_remaining_turns ops conv reason a) h

  after_mark-IsDone :
      (conv : String) (e : Option ErrorData) (o : Option Conversations) (a : Strategy S)
      → IsDone a
      → IsDone (after_mark plan ops conv e o a)
  after_mark-IsDone conv e none a h = fill_slot-IsDone _ h
  after_mark-IsDone conv (some e) (some m) a h =
      aborted-IsDone conv _ (record a { conversations = m }) h
  after_mark-IsDone conv none (some m) a h =
      if_both IsDone a.stopping (λ _. signal-IsDone (record a { conversations = m }) h)
        (λ _.
          issue_next_turn-IsDone (fill_slot plan ops) fill_slot-IsDone conv
            (record a { conversations = m }) h)

  after_timeout-IsDone :
      (q conv : String) (info : ConvInfo) (o : Option Conversations) (b : Strategy S)
      → IsDone b
      → IsDone (after_timeout plan ops q conv info o b)
  after_timeout-IsDone q conv info none b k = k
  after_timeout-IsDone q conv info (some m) b k = aborted-IsDone conv _ _ k

  pub event-IsDone : (e : Event) (a : Strategy S) → IsDone a → IsDone (take_event plan ops e a)
  unfolding take_event on_sample_complete handle_timeout end_delay
  event-IsDone (response q e) a h = routed-IsDone (lookup q a.inflight)
    where
      routed-IsDone : (o : Option String) → IsDone (routed plan ops q e o a)
      routed-IsDone none = h
      routed-IsDone (some conv) =
          after_mark-IsDone conv e (mark_turn (is_some e) conv a.conversations)
            (record a { inflight = erase q a.inflight }) h
  event-IsDone (timeout q) a h = timed-IsDone (lookup q a.inflight)
    where
      timed-IsDone : (o : Option String) → IsDone (timed_out plan ops q o a)
      timed-IsDone none = h
      timed-IsDone (some conv) =
          after_timeout-IsDone q conv (ops.time_out q a.issuer).0
            (mark_turn true conv a.conversations)
            (record a { inflight = erase q a.inflight; issuer = (ops.time_out q a.issuer).1 }) h
  event-IsDone (delay_ends conv) a h = over-IsDone (lookup conv a.delays)
    where
      over-IsDone : (o : Option ConversationTurn) → IsDone (delay_over plan ops conv o a)
      over-IsDone none = h
      over-IsDone (some t) = issue_turn_now-IsDone conv t a h
