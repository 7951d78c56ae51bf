-- ===== src/LoadGen/Agentic/Load.antt =====
-- load_generator/agentic_inference_strategy.py: how many queries and delayed turns are outstanding.
use endpoints.Base.{
  ℕ, zero, suc, ◌+◌, ◌-◌, ◌≤◌, not, Option, none, some, String, if_both, length, get_elem?, arith,
}
use endpoints.Base.Dict.{Dict, lookup, erase, length-insert_le, length-erase_le}
use endpoints.Core.Output.{Json}
use endpoints.LoadGen.Issuer.{Answer, refused, accepted, raised}
use endpoints.LoadGen.Trajectories.{
  ConversationTurn, Plan, Instance, trajectory_budget, instance_at,
}
use endpoints.LoadGen.Agentic.{
  Active, Issuer, Strategy, is_empty, has_more_conversation_instances, has_work_remaining,
  signal_done_if_no_inflight, request_stop_issuing, stop_tracking, after_issue, issue_data,
  same_turn, issue_active, issue_turn_now, finish_conversation, schedule, next_of, issue_next_turn,
  start_instance, start_conversation,
}
use endpoints.LoadGen.Agentic.Events.{fill_on, fill_slot}

abbrev pub load : {S : Type 0} → Strategy S → ℕ
load a = length a.inflight + length a.delays

module _ {S : Type 0} (n : ℕ) where
  abbrev pub Fits : Strategy S → Type 0
  Fits a = load a ≤ n

  -- room for one more
  abbrev pub HasRoom : Strategy S → Type 0
  HasRoom a = suc (load a) ≤ n

  pub signal-Fits : (a : Strategy S) → Fits a → Fits (signal_done_if_no_inflight a)
  signal-Fits a h = if_both Fits (is_empty a.inflight) (λ _. h) (λ _. h)

  request-Fits : (a : Strategy S) → Fits a → Fits (request_stop_issuing a)
  unfolding request_stop_issuing
  request-Fits a h = signal-Fits _ (if_both Fits a.stopping (λ _. h) (λ _. omega (arith, h)))

module _ (plan : Plan) {S : Type 0} (ops : Issuer S) (n : ℕ) where
  stop_tracking-room : (a : Strategy S) → HasRoom n a → HasRoom n (stop_tracking ops a)
  unfolding stop_tracking
  stop_tracking-room a h = if_both (HasRoom n) a.tracking_stopped (λ _. h) (λ _. h)

  after_issue-Fits :
      (conv : String) (st : Active) (r : Answer × S) (a : Strategy S)
      → HasRoom n a
      → Fits n (after_issue conv st r a)
  after_issue-Fits conv st (refused, s) a h =
      request-Fits n (record a { issuer = s }) (omega (arith, h))
  after_issue-Fits conv st (raised, s) a h = omega (arith, h)
  after_issue-Fits conv st (accepted q, s) a h =
      omega (arith, h, length-insert_le q conv a.inflight)

  issue_active-Fits :
      (conv : String) (t : ConversationTurn) (o : Option Active) (a : Strategy S)
      → HasRoom n a
      → Fits n (issue_active plan ops conv t o a)
  issue_active-Fits conv t none a h = omega (arith, h)
  issue_active-Fits conv t (some st) a h =
      if_both (Fits n) (same_turn t (get_elem? st.turns st.cursor))
        (λ _. data-Fits (plan.data_override st.source_id t.1 st.repeat_id)) (λ _. omega (arith, h))
    where
      data-Fits : (o : Option (Option (Dict Json))) → Fits n (issue_data ops conv t st o a)
      data-Fits none = omega (arith, h)
      data-Fits (some o) = after_issue-Fits conv st (ops.issue t conv o a.issuer) a h

  pub issue_turn_now-Fits :
      (conv : String) (t : ConversationTurn) (a : Strategy S)
      → suc (length a.inflight + length (erase conv a.delays)) ≤ n
      → Fits n (issue_turn_now plan ops conv t a)
  unfolding issue_turn_now
  issue_turn_now-Fits conv t a h =
      if_both (Fits n) a.stopping (λ _. omega (arith, h))
        (λ _.
          issue_active-Fits conv t (lookup conv a.active)
            (record a { delays = erase conv a.delays }) h)

  module _ (fill : Strategy S → Strategy S)
      (ok : (a : Strategy S) → HasRoom n a → Fits n (fill a)) where
    pub finish-Fits :
        (conv : String) (a : Strategy S)
        → HasRoom n a
        → Fits n (finish_conversation plan ops fill conv a)
    unfolding finish_conversation
    finish-Fits conv b h =
        let a = record b { active = erase conv b.active } in
        let room = stop_tracking-room a h in
        if_both (Fits n) (has_more_conversation_instances plan a) (λ _. ok a h)
          (λ _.
            if_both (Fits n) plan.stop_issuing_on_first_user_complete
              (λ _. request-Fits n (stop_tracking ops a) (omega (arith, room)))
              (λ _. ok (stop_tracking ops a) room))

    pub issue_next_turn-Fits :
        (conv : String) (a : Strategy S)
        → HasRoom n a
        → Fits n (issue_next_turn plan ops fill conv a)
    unfolding issue_next_turn
    issue_next_turn-Fits conv a h =
        if_both (Fits n) a.stopping (λ _. omega (arith, h)) (λ _. next-Fits (lookup conv a.active))
      where
        schedule-Fits :
            (st : Active) (o : Option ConversationTurn)
            → Fits n (schedule plan ops fill conv st o a)
        schedule-Fits st none = finish-Fits conv a h
        schedule-Fits st (some t) =
            if_both (Fits n) (plan.delayed st.source_id t.1)
              (λ _. omega (arith, h, length-insert_le conv t a.delays))
              (λ _. issue_turn_now-Fits conv t a (omega (arith, h, length-erase_le conv a.delays)))

        next-Fits : (o : Option Active) → Fits n (next_of plan ops fill conv o a)
        next-Fits none = omega (arith, h)
        next-Fits (some st) = schedule-Fits st (get_elem? st.turns st.cursor)

    pub start-Fits : (a : Strategy S) → HasRoom n a → Fits n (start_conversation plan ops fill a)
    unfolding start_conversation
    start-Fits a h =
        if_both (Fits n) a.stopping (λ _. omega (arith, h))
          (λ _.
            if_both (Fits n) (has_more_conversation_instances plan a)
              (λ _. instance-Fits (instance_at plan a.started)) (λ _. ok a h))
      where
        instance-Fits : (o : Option Instance) → Fits n (start_instance plan ops fill o a)
        instance-Fits none = omega (arith, h)
        instance-Fits (some i) = issue_next_turn-Fits i.logical_id _ h

  fill_on-Fits : (fuel : ℕ) (a : Strategy S) → HasRoom n a → Fits n (fill_on plan ops fuel a)
  unfolding fill_on
  fill_on-Fits zero a h = omega (arith, h)
  fill_on-Fits (suc fuel) a h =
      if_both (Fits n) a.stopping (λ _. signal-Fits n a (omega (arith, h)))
        (λ _.
          if_both (Fits n) (has_more_conversation_instances plan a)
            (λ _. start-Fits (fill_on plan ops fuel) (λ b. fill_on-Fits fuel b) a h)
            (λ _.
              if_both (Fits n) (not (has_work_remaining plan a)) (λ _. omega (arith, h))
                (λ _. omega (arith, h))))

  pub fill_slot-Fits : (a : Strategy S) → HasRoom n a → Fits n (fill_slot plan ops a)
  unfolding fill_slot
  fill_slot-Fits a h = fill_on-Fits (suc (trajectory_budget plan - a.started)) a h
