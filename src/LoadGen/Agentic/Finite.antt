-- ===== src/LoadGen/Agentic/Finite.antt =====
-- load_generator/agentic_inference_strategy.py: the strategy takes finitely many steps.
use endpoints.Base.{
  ℕ, zero, suc, ◌+◌, ◌-◌, ◌*◌, ◌≤◌, Bool, true, not, ◌≡◌, refl, Option, none, some, String, if_both,
  ltb→lt, ◌&&◌, length, get_elem?, arith,
}
use endpoints.Base.Dict.{Dict, lookup, insert, erase, length-insert_le, length-erase_le}
use endpoints.Core.Output.{ErrorData}
use endpoints.LoadGen.State.{ConvInfo}
use endpoints.LoadGen.Conversation.{Conversations}
use endpoints.LoadGen.Trajectories.{
  ConversationTurn, Plan, Instance, trajectory_budget, instance_at,
}
use endpoints.LoadGen.Agentic.{
  Active, Issuer, Strategy, is_empty, has_more_conversation_instances, has_work_remaining,
  stop_tracking, finish_conversation, schedule, next_of, issue_next_turn, start_instance,
  start_conversation,
}
use endpoints.LoadGen.Agentic.Events.{
  fill_on, fill_slot, abort_remaining_turns, after_mark, after_timeout,
}
use endpoints.LoadGen.Agentic.Effort.{
  rest, rest-erase, rest-insert, unstarted, unstarted-next, effort, IsWithin, signal-IsWithin,
  request-IsWithin, issue_turn_now-IsWithin,
}

second_true : (a b : Bool) → (a && b) ≡ true → b ≡ true
second_true a b h = ground arith

module _ (plan : Plan) {S : Type 0} (ops : Issuer S) (n : ℕ) where
  -- room for a delayed turn
  abbrev pub HasSlack : Strategy S → Type 0
  HasSlack a = suc (effort plan a) ≤ n

  loose : (a : Strategy S) → HasSlack a → IsWithin plan n a
  loose a h = omega (arith, h)

  tracking-slack : (a : Strategy S) → HasSlack a → HasSlack (stop_tracking ops a)
  unfolding stop_tracking
  tracking-slack a h = if_both HasSlack a.tracking_stopped (λ _. h) (λ _. h)

  module _ (fill : Strategy S → Strategy S)
      (ok : (a : Strategy S) → HasSlack a → IsWithin plan n (fill a)) where
    finish-IsWithin :
        (conv : String) (a : Strategy S)
        → HasSlack a
        → IsWithin plan n (finish_conversation plan ops fill conv a)
    unfolding finish_conversation
    finish-IsWithin conv b h =
        let a = record b { active = erase conv b.active } in
        let k : HasSlack a = omega (arith, h, rest-erase conv b.active) in
        let t = tracking-slack a k in
        if_both (IsWithin plan n) (has_more_conversation_instances plan a) (λ _. ok a k)
          (λ _.
            if_both (IsWithin plan n) plan.stop_issuing_on_first_user_complete
              (λ _. request-IsWithin plan n (stop_tracking ops a) (loose (stop_tracking ops a) t))
              (λ _. ok (stop_tracking ops a) t))

    issue_next_turn-IsWithin :
        (conv : String) (a : Strategy S)
        → HasSlack a
        → IsWithin plan n (issue_next_turn plan ops fill conv a)
    unfolding issue_next_turn
    issue_next_turn-IsWithin conv a h =
        if_both (IsWithin plan n) a.stopping (λ _. loose a h)
          (λ _. next-IsWithin (lookup conv a.active))
      where
        schedule-IsWithin :
            (st : Active) (o : Option ConversationTurn)
            → IsWithin plan n (schedule plan ops fill conv st o a)
        schedule-IsWithin st none = finish-IsWithin conv a h
        schedule-IsWithin st (some t) =
            if_both (IsWithin plan n) (plan.delayed st.source_id t.1)
              (λ _. omega (arith, h, length-insert_le conv t a.delays))
              (λ _.
                issue_turn_now-IsWithin plan ops n conv t a
                  (omega (arith, h, length-erase_le conv a.delays)))

        next-IsWithin : (o : Option Active) → IsWithin plan n (next_of plan ops fill conv o a)
        next-IsWithin none = loose a h
        next-IsWithin (some st) = schedule-IsWithin st (get_elem? st.turns st.cursor)

    start-IsWithin :
        (a : Strategy S) → HasSlack a → IsWithin plan n (start_conversation plan ops fill a)
    unfolding start_conversation
    start-IsWithin a h =
        if_both (IsWithin plan n) a.stopping (λ _. loose a h)
          (λ _.
            if_both (IsWithin plan n) (has_more_conversation_instances plan a)
              (λ more. instance-IsWithin (instance_at plan a.started) refl more) (λ _. ok a h))
      where
        opened_active : Instance → Dict Active
        opened_active i =
            insert i.logical_id
              (record {
                source_id = i.source_id;
                turns = i.turns;
                cursor = 0;
                repeat_id = i.repeat_id;
              })
              a.active

        slack :
            (i : Instance)
            → instance_at plan a.started ≡ some i
            → has_more_conversation_instances plan a ≡ true
            → rest (opened_active i) ≤ length i.turns - 0 + rest a.active
            → suc (
                3 * (unstarted plan (a.started + 1) + rest (opened_active i))
                + (2 * length a.inflight + length a.delays))
              ≤ n
        slack i e more le =
            let lt =
              ltb→lt a.started (trajectory_budget plan)
                (second_true (not (is_empty plan.base_convs)) _ more) in
            let next = unstarted-next plan a.started lt i e in omega (arith, h, next, le)

        instance-IsWithin :
            (o : Option Instance)
            → instance_at plan a.started ≡ o
            → has_more_conversation_instances plan a ≡ true
            → IsWithin plan n (start_instance plan ops fill o a)
        instance-IsWithin none e more = loose a h
        instance-IsWithin (some i) e more =
            issue_next_turn-IsWithin i.logical_id _
              (slack i e more (rest-insert i.logical_id _ a.active))

  fill_on-IsWithin :
      (fuel : ℕ) (a : Strategy S) → HasSlack a → IsWithin plan n (fill_on plan ops fuel a)
  unfolding fill_on
  fill_on-IsWithin zero a h = loose a h
  fill_on-IsWithin (suc fuel) a h =
      if_both (IsWithin plan n) a.stopping (λ _. signal-IsWithin plan n a (loose a h))
        (λ _.
          if_both (IsWithin plan n) (has_more_conversation_instances plan a)
            (λ _. start-IsWithin (fill_on plan ops fuel) (λ b. fill_on-IsWithin fuel b) a h)
            (λ _.
              if_both (IsWithin plan n) (not (has_work_remaining plan a)) (λ _. loose a h)
                (λ _. loose a h)))

  fill_slot-IsWithin : (a : Strategy S) → HasSlack a → IsWithin plan n (fill_slot plan ops a)
  unfolding fill_slot
  fill_slot-IsWithin a h = fill_on-IsWithin (suc (trajectory_budget plan - a.started)) a h

  pub started-IsWithin :
      (a : Strategy S)
      → HasSlack a
      → IsWithin plan n (start_conversation plan ops (fill_slot plan ops) a)
  started-IsWithin a h = start-IsWithin (fill_slot plan ops) fill_slot-IsWithin a h

  pub aborted-IsWithin :
      (conv reason : String) (a : Strategy S)
      → HasSlack a
      → IsWithin plan n (
          finish_conversation plan ops
            (fill_slot plan ops)
            conv
            (abort_remaining_turns ops conv reason a))
  unfolding abort_remaining_turns
  aborted-IsWithin conv reason a h =
      finish-IsWithin (fill_slot plan ops) fill_slot-IsWithin conv
        (abort_remaining_turns ops conv reason a)
        (omega (arith, h, length-erase_le conv a.delays, rest-erase conv a.active))

  pub after_mark-IsWithin :
      (conv : String) (e : Option ErrorData) (o : Option Conversations) (a : Strategy S)
      → HasSlack a
      → IsWithin plan n (after_mark plan ops conv e o a)
  after_mark-IsWithin conv e none a h =
      fill_slot-IsWithin _ (omega (arith, h, rest-erase conv a.active))
  after_mark-IsWithin conv (some e) (some m) a h =
      aborted-IsWithin conv _ (record a { conversations = m }) h
  after_mark-IsWithin conv none (some m) a h =
      if_both (IsWithin plan n) a.stopping
        (λ _. signal-IsWithin plan n (record a { conversations = m }) (omega (arith, h)))
        (λ _.
          issue_next_turn-IsWithin (fill_slot plan ops) fill_slot-IsWithin conv
            (record a { conversations = m }) h)

  pub after_timeout-IsWithin :
      (q conv : String) (info : ConvInfo) (o : Option Conversations) (a : Strategy S)
      → HasSlack a
      → IsWithin plan n (after_timeout plan ops q conv info o a)
  after_timeout-IsWithin q conv info none a h = loose a h
  after_timeout-IsWithin q conv info (some m) a h = aborted-IsWithin conv _ _ h
