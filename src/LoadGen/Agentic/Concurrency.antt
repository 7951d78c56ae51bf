-- ===== src/LoadGen/Agentic/Concurrency.antt =====
-- load_generator/agentic_inference_strategy.py: the concurrency that the strategy keeps.
use mathlib.Core.Path.{subst}
use endpoints.Base.{
  ℕ, zero, suc, ◌+◌, ◌≤◌, true, ◌≡◌, sym, Option, none, some, List, [], ◌∷◌, String, if_both,
  if_true, lt→ltb, is_some, arith, Option-cases, inl, inr,
}
use endpoints.Base.Dict.{lookup, erase, length-erase_le, length-erase_found}
use endpoints.Core.Output.{ErrorData}
use endpoints.LoadGen.State.{ConvInfo}
use endpoints.LoadGen.Conversation.{Conversations, mark_turn}
use endpoints.LoadGen.Trajectories.{Plan, trajectory_budget}
use endpoints.LoadGen.Agentic.{
  Issuer, Strategy, is_empty, has_work_remaining, finish_conversation, start_conversation,
}
use endpoints.LoadGen.Agentic.Events.{
  fill_slot, abort_remaining_turns, after_mark, routed, on_sample_complete, after_timeout,
  timed_out, handle_timeout, delay_over, end_delay, initial_conversations_to_start, min, wanted,
  start_all, fresh, begin, Event, response, timeout, delay_ends, take_event, take_events,
}
use endpoints.LoadGen.Agentic.Budget.{take_events-InBudget}
use endpoints.LoadGen.Agentic.Load.{
  load, Fits, HasRoom, signal-Fits, issue_turn_now-Fits, finish-Fits, issue_next_turn-Fits,
  start-Fits, fill_slot-Fits,
}

min_le_left : (m n : ℕ) → min m n ≤ m
min_le_left m n = ground arith

min_le_right : (m n : ℕ) → min m n ≤ n
min_le_right m n = ground arith

module _ (plan : Plan) {S : Type 0} (ops : Issuer S) (n : ℕ) where
  aborted-Fits :
      (conv reason : String) (a : Strategy S)
      → HasRoom n a
      → Fits n (
          finish_conversation plan ops
            (fill_slot plan ops)
            conv
            (abort_remaining_turns ops conv reason a))
  unfolding abort_remaining_turns
  aborted-Fits conv reason a h =
      finish-Fits plan ops n (fill_slot plan ops) (fill_slot-Fits plan ops n) conv
        (abort_remaining_turns ops conv reason a) (omega (arith, h, length-erase_le conv a.delays))

  after_mark-Fits :
      (conv : String) (e : Option ErrorData) (o : Option Conversations) (a : Strategy S)
      → HasRoom n a
      → Fits n (after_mark plan ops conv e o a)
  after_mark-Fits conv e none a h = fill_slot-Fits plan ops n _ h
  after_mark-Fits conv (some e) (some m) a h =
      aborted-Fits conv _ (record a { conversations = m }) h
  after_mark-Fits conv none (some m) a h =
      if_both (Fits n) a.stopping
        (λ _. signal-Fits n (record a { conversations = m }) (omega (arith, h)))
        (λ _.
          issue_next_turn-Fits plan ops n (fill_slot plan ops) (fill_slot-Fits plan ops n) conv
            (record a { conversations = m }) h)

  after_timeout-Fits :
      (q conv : String) (info : ConvInfo) (o : Option Conversations) (a : Strategy S)
      → HasRoom n a
      → Fits n (after_timeout plan ops q conv info o a)
  after_timeout-Fits q conv info none a h = omega (arith, h)
  after_timeout-Fits q conv info (some m) a h = aborted-Fits conv _ _ h

  event-Fits : (e : Event) (a : Strategy S) → Fits n a → Fits n (take_event plan ops e a)
  unfolding take_event on_sample_complete handle_timeout end_delay
  event-Fits (response q e) a h = elim (Option-cases (lookup q a.inflight)) [
    | inl late ↦ subst (λ o. Fits n (routed plan ops q e o a)) (sym late) h
    | inr (conv, found) ↦
        subst (λ o. Fits n (routed plan ops q e o a)) (sym found)
          (after_mark-Fits conv e (mark_turn (is_some e) conv a.conversations)
            (record a { inflight = erase q a.inflight })
            (omega (arith, h, length-erase_found q conv a.inflight found)))
  ]
  event-Fits (timeout q) a h = elim (Option-cases (lookup q a.inflight)) [
    | inl late ↦ subst (λ o. Fits n (timed_out plan ops q o a)) (sym late) h
    | inr (conv, found) ↦
        subst (λ o. Fits n (timed_out plan ops q o a)) (sym found)
          (after_timeout-Fits q conv (ops.time_out q a.issuer).0
            (mark_turn true conv a.conversations)
            (record a { inflight = erase q a.inflight; issuer = (ops.time_out q a.issuer).1 })
            (omega (arith, h, length-erase_found q conv a.inflight found)))
  ]
  event-Fits (delay_ends conv) a h = elim (Option-cases (lookup conv a.delays)) [
    | inl gone ↦ subst (λ o. Fits n (delay_over plan ops conv o a)) (sym gone) h
    | inr (t, found) ↦
        subst (λ o. Fits n (delay_over plan ops conv o a)) (sym found)
          (issue_turn_now-Fits plan ops n conv t a
            (omega (arith, h, length-erase_found conv t a.delays found)))
  ]

module _ (plan : Plan) {S : Type 0} (ops : Issuer S) where
  events-Fits :
      (n : ℕ) (es : List Event) (a : Strategy S) → Fits n a → Fits n (take_events plan ops es a)
  unfolding take_events
  events-Fits n [] a h = h
  events-Fits n (e ∷ es) a h =
      events-Fits n es (take_event plan ops e a) (event-Fits plan ops n e a h)

  start_all-Fits : (k n : ℕ) (a : Strategy S) → Fits n a → Fits (k + n) (start_all plan ops k a)
  unfolding start_all
  start_all-Fits zero n a h = omega (arith, h)
  start_all-Fits (suc k) n a h =
      let b = start_conversation plan ops (fill_slot plan ops) a in
      let first : Fits (suc n) b =
        start-Fits plan ops (suc n) (fill_slot plan ops) (fill_slot-Fits plan ops (suc n)) a
          (omega (arith, h)) in
      if_both (Fits (suc k + n)) b.error (λ _. omega (arith, first))
        (λ _. omega (arith, start_all-Fits k (suc n) b first))

  begin-Fits :
      (s : S) (m : Conversations) → Fits (initial_conversations_to_start plan) (begin plan ops s m)
  unfolding begin
  begin-Fits s m =
      let k = initial_conversations_to_start plan in
      let a = start_all plan ops k (fresh s m) in
      let h : Fits k a = omega (arith, start_all-Fits k 0 (fresh s m) (omega arith)) in
      if_both (Fits k) (has_work_remaining plan a) (λ _. h) (λ _. h)

  -- With a positive `target_concurrency`, whatever happens while `execute` waits, the queries in flight
  -- and the delayed turns together are at most as many, and at most the budget of trajectories; and no
  -- more trajectories are started than the budget.
  pub take_events-load :
      (k : ℕ) (es : List Event) (s : S) (m : Conversations)
      → plan.target_concurrency ≡ some (suc k)
      → let a = take_events plan ops es (begin plan ops s m) in
        (load a ≤ suc k) × (load a ≤ trajectory_budget plan) × (a.started ≤ trajectory_budget plan)
  unfolding initial_conversations_to_start
  take_events-load k es s m e =
      let h =
        events-Fits (initial_conversations_to_start plan) es (begin plan ops s m)
          (begin-Fits s m) in
      (
        omega (arith, h, initial_le_target k e),
        omega (arith, h, initial_le),
        take_events-InBudget plan ops es s m,
      )
    where
      initial_le : initial_conversations_to_start plan ≤ trajectory_budget plan
      initial_le =
          if_both (λ i. i ≤ trajectory_budget plan) (is_empty plan.base_convs) (λ _. omega arith)
            (λ _. min_le_right (wanted plan plan.target_concurrency) (trajectory_budget plan))

      wanted_some : (k : ℕ) → wanted plan (some (suc k)) ≡ suc k
      wanted_some k = if_true _ _ _ (lt→ltb 0 (suc k) (omega arith))

      initial_le_target :
          (k : ℕ)
          → plan.target_concurrency ≡ some (suc k)
          → initial_conversations_to_start plan ≤ suc k
      initial_le_target k e =
          if_both (λ i. i ≤ suc k) (is_empty plan.base_convs) (λ _. omega arith)
            (λ _.
              subst (λ o. min (wanted plan o) (trajectory_budget plan) ≤ suc k) (sym e)
                (omega (
                  arith,
                  min_le_left (wanted plan (some (suc k))) (trajectory_budget plan),
                  wanted_some k,
                )))
