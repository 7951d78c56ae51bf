-- ===== src/LoadGen/Agentic/Progress.antt =====
-- load_generator/agentic_inference_strategy.py: `execute` ends.
use mathlib.Core.Path.{subst}
use endpoints.Base.{
  ℕ, zero, suc, ◌+◌, ◌-◌, ◌*◌, ◌≤◌, Bool, true, ◌≡◌, sym, ap, some, List, [], ◌∷◌, if_both, ◌&&◌,
  length, is_some, arith, Option-cases, inl, inr,
}
use endpoints.Base.Dict.{lookup, erase, contains, length-erase_found}
use endpoints.LoadGen.Conversation.{Conversations, mark_turn}
use endpoints.LoadGen.Trajectories.{Plan, planned_turns, trajectory_budget}
use endpoints.LoadGen.Agentic.{Issuer, Strategy, has_work_remaining, start_conversation}
use endpoints.LoadGen.Agentic.Events.{
  fill_slot, routed, on_sample_complete, timed_out, handle_timeout, delay_over, end_delay,
  initial_conversations_to_start, start_all, fresh, begin, Event, response, timeout, delay_ends,
  take_event, take_events,
}
use endpoints.LoadGen.Agentic.Effort.{effort, IsWithin, issue_turn_now-IsWithin}
use endpoints.LoadGen.Agentic.Finite.{started-IsWithin, after_mark-IsWithin, after_timeout-IsWithin}
use endpoints.LoadGen.Agentic.Issued.{both_ways}

both_true : {a b : Bool} → (a && b) ≡ true → (a ≡ true) × (b ≡ true)
both_true h = ground arith

-- Whether the event is one that the strategy waits for.
abbrev pub is_due : {S : Type 0} → Event → Strategy S → Bool
is_due (response q e) a = contains q a.inflight
is_due (timeout q) a = contains q a.inflight
is_due (delay_ends conv) a = contains conv a.delays

module _ (plan : Plan) {S : Type 0} (ops : Issuer S) where
  unfoldable pub are_due : List Event → Strategy S → Bool
  unfolding take_event
  are_due [] a = true
  are_due (e ∷ es) a = is_due e a && are_due es (take_event plan ops e a)

  event-decreases :
      (e : Event) (a : Strategy S)
      → is_due e a ≡ true
      → suc (effort plan (take_event plan ops e a)) ≤ effort plan a
  unfolding take_event on_sample_complete handle_timeout end_delay
  event-decreases (response q e) a h = elim (Option-cases (lookup q a.inflight)) [
    | inl late ↦ absurd (both_ways h (ap is_some late))
    | inr (conv, found) ↦
        let one = length-erase_found q conv a.inflight found in
        let w : IsWithin plan (effort plan a - 1) (routed plan ops q e (some conv) a) =
          after_mark-IsWithin plan ops (effort plan a - 1) conv e
            (mark_turn (is_some e) conv a.conversations)
            (record a { inflight = erase q a.inflight }) (omega (arith, one)) in
        subst (λ o. suc (effort plan (routed plan ops q e o a)) ≤ effort plan a) (sym found)
          (omega (arith, w, one))
  ]
  event-decreases (timeout q) a h = elim (Option-cases (lookup q a.inflight)) [
    | inl late ↦ absurd (both_ways h (ap is_some late))
    | inr (conv, found) ↦
        let one = length-erase_found q conv a.inflight found in
        let w : IsWithin plan (effort plan a - 1) (timed_out plan ops q (some conv) a) =
          after_timeout-IsWithin plan ops (effort plan a - 1) q conv (ops.time_out q a.issuer).0
            (mark_turn true conv a.conversations)
            (record a { inflight = erase q a.inflight; issuer = (ops.time_out q a.issuer).1 })
            (omega (arith, one)) in
        subst (λ o. suc (effort plan (timed_out plan ops q o a)) ≤ effort plan a) (sym found)
          (omega (arith, w, one))
  ]
  event-decreases (delay_ends conv) a h = elim (Option-cases (lookup conv a.delays)) [
    | inl gone ↦ absurd (both_ways h (ap is_some gone))
    | inr (t, found) ↦
        let one = length-erase_found conv t a.delays found in
        let w : IsWithin plan (effort plan a - 1) (delay_over plan ops conv (some t) a) =
          issue_turn_now-IsWithin plan ops (effort plan a - 1) conv t a (omega (arith, one)) in
        subst (λ o. suc (effort plan (delay_over plan ops conv o a)) ≤ effort plan a) (sym found)
          (omega (arith, w, one))
  ]

  events-bound :
      (es : List Event) (a : Strategy S)
      → are_due es a ≡ true
      → length es + effort plan (take_events plan ops es a) ≤ effort plan a
  unfolding take_events are_due
  events-bound [] a h = omega arith
  events-bound (e ∷ es) a h =
      let p : (is_due e a ≡ true) × (are_due es (take_event plan ops e a) ≡ true) = both_true h in
      omega (arith, event-decreases e a p.0, events-bound es (take_event plan ops e a) p.1)

  start_all-IsWithin :
      (k : ℕ) (a : Strategy S) → effort plan (start_all plan ops k a) ≤ k + effort plan a
  unfolding start_all
  start_all-IsWithin zero a = omega arith
  start_all-IsWithin (suc k) a =
      let b = start_conversation plan ops (fill_slot plan ops) a in
      let first : effort plan b ≤ suc (effort plan a) =
        started-IsWithin plan ops (suc (effort plan a)) a (omega arith) in
      let more : effort plan (start_all plan ops k b) ≤ suc k + effort plan a =
        omega (arith, first, start_all-IsWithin k b) in
      if_both (λ (x : Strategy S). effort plan x ≤ suc k + effort plan a) b.error
        (λ _. omega (arith, first)) (λ _. more)

  -- While events come that the strategy waits for, their number is at most three times the planned
  -- turns of the trajectories, and one more for each conversation that is started at first.
  pub take_events-finite :
      (es : List Event) (s : S) (m : Conversations)
      → are_due es (begin plan ops s m) ≡ true
      → length es
        ≤ 3 * planned_turns plan (trajectory_budget plan) 0 + initial_conversations_to_start plan
  unfolding begin
  take_events-finite es s m h =
      let k = initial_conversations_to_start plan in
      let all = start_all plan ops k (fresh s m) in
      let zero_eq : trajectory_budget plan - 0 ≡ trajectory_budget plan = omega arith in
      let e = ap (λ b. planned_turns plan b 0) zero_eq in
      let start : effort plan (begin plan ops s m) ≤ k + effort plan (fresh s m) =
        if_both (λ (x : Strategy S). effort plan x ≤ k + effort plan (fresh s m))
          (has_work_remaining plan all) (λ _. start_all-IsWithin k (fresh s m))
          (λ _. start_all-IsWithin k (fresh s m)) in
      omega (arith, events-bound es (begin plan ops s m) h, start, e)
