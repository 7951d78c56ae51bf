-- ===== src/LoadGen/Agentic/Waiting.antt =====
-- load_generator/agentic_inference_strategy.py: while `execute` waits, something that ends the wait is
-- outstanding.
use Prim.Native.String.{◌++◌ as str_append}
use mathlib.Core.Path.{subst}
use endpoints.Base.{
  suc, ◌+◌, ◌<◌, true, ◌≡◌, refl, sym, ap, ◌∙◌, inl, inr, Option, none, some, List, [], ◌∷◌, String,
  str_eq, if_true, if_false, is_some, arith, Bool-cases, Option-cases,
}
use endpoints.Base.Dict.{lookup, erase}
use endpoints.Base.Tally.{
  one_if, keys, keys-erase, keys-found, values-found, erase_nil, lookup-erase,
}
use endpoints.Core.Output.{ErrorData}
use endpoints.LoadGen.Conversation.{Conversations}
use endpoints.LoadGen.Trajectories.{ConversationTurn, Plan, trajectory_budget}
use endpoints.LoadGen.Agentic.{Issuer, Strategy, issue_turn_now}
use endpoints.LoadGen.Agentic.Events.{
  fill_slot, after_mark, routed, on_sample_complete, after_timeout, timed_out, handle_timeout,
  delay_over, end_delay, Event, response, timeout, delay_ends, take_event, take_events,
}
use endpoints.LoadGen.Agentic.Linked.{GivesFresh, Linked, at, nowhere, Ready, IsLive, Result}
use endpoints.LoadGen.Agentic.Issued.{stopped-Ready, signal-Result, issue_turn_now-Result}
use endpoints.LoadGen.Agentic.Filled.{issue_next_turn-Result}
use endpoints.LoadGen.Agentic.Opened.{AreDistinct}
use endpoints.LoadGen.Agentic.Done.{event-IsDone}
use endpoints.LoadGen.Agentic.Aborted.{mark_turn-known, erased_query-Ready, aborted-Result, fills}

lookup_nil {ℓ} : {V : Type ℓ} (k : String) → lookup {V = V} k [] ≡ none
unfolding lookup
lookup_nil k = refl

module _ (plan : Plan) {S : Type 0} {ops : Issuer S} (laws : GivesFresh ops)
    (distinct : AreDistinct plan) where
  -- a response of a query of the conversation
  routed-Result :
      (q conv : String) (e : Option ErrorData) (a : Strategy S)
      → Ready plan laws nowhere a
      → lookup q a.inflight ≡ some conv
      → Result plan laws (routed plan ops q e (some conv) a)
  routed-Result q conv e a h found =
      let (m, marked, met) =
        mark_turn-known (is_some e) conv a.conversations
          (h.known conv (values-found q conv a.inflight found)) in
      let b = record a { inflight = erase q a.inflight } in
      let r = erased_query-Ready plan laws distinct q conv a m a.issuer h found met (λ r k. k) in
      subst (λ o. Result plan laws (after_mark plan ops conv e o b)) (sym marked)
        (marked-Result e m r)
    where
      marked-Result :
          (e : Option ErrorData) (m : Conversations)
          → Ready plan laws
              (at conv)
              (record a { inflight = erase q a.inflight; conversations = m; issuer = a.issuer })
          → Result plan laws
              (after_mark plan ops conv e (some m) (record a { inflight = erase q a.inflight }))
      marked-Result (some e) m r = aborted-Result plan laws distinct conv _ r _
      marked-Result none m r =
          let b = record a { inflight = erase q a.inflight; conversations = m } in
          elim (Bool-cases a.stopping) [
            | inl stopping ↦
                subst (λ (x : Strategy S). Result plan laws x) (sym (if_true _ _ _ stopping))
                  (signal-Result plan laws b (stopped-Ready plan laws (at conv) b r stopping)
                    stopping)
            | inr running ↦
                subst (λ (x : Strategy S). Result plan laws x) (sym (if_false _ _ _ running))
                  (issue_next_turn-Result plan laws (fill_slot plan ops)
                    (suc (trajectory_budget plan)) (fills plan laws distinct) conv b r running
                    (omega arith, r.budgeted))
          ]

  timed_out-Result :
      (q conv : String) (a : Strategy S)
      → Ready plan laws nowhere a
      → lookup q a.inflight ≡ some conv
      → Result plan laws (timed_out plan ops q (some conv) a)
  timed_out-Result q conv a h found =
      let s = (ops.time_out q a.issuer).1 in
      let info = (ops.time_out q a.issuer).0 in
      let (m, marked, met) =
        mark_turn-known true conv a.conversations
          (h.known conv (values-found q conv a.inflight found)) in
      let e : ErrorData = record {
        error_type = "TurnTimeout";
        error_message = str_append "turn timeout after " (str_append plan.turn_timeout_s "s");
      } in
      let b = record a { inflight = erase q a.inflight; issuer = s } in
      let r =
        erased_query-Ready plan laws distinct q conv a m (ops.report q info e s) h found met
          (λ x k. laws.kept_report q info e s x (laws.kept_time_out q a.issuer x k)) in
      subst (λ o. Result plan laws (after_timeout plan ops q conv info o b)) (sym marked)
        (aborted-Result plan laws distinct conv _ r _)

  end_delay-Result :
      (conv : String) (t : ConversationTurn) (a : Strategy S)
      → Ready plan laws nowhere a
      → lookup conv a.delays ≡ some t
      → Result plan laws (issue_turn_now plan ops conv t a)
  end_delay-Result conv t a h found = elim (Bool-cases a.stopping) [
    | inl stopping ↦
        let k : none ≡ some t =
          sym (lookup_nil conv) ∙ sym (ap (lookup conv) (h.idle stopping)) ∙ found in
        absurd (cc)
    | inr running ↦
        let l = h.linked running in
        let (st, active, turn) = l.due conv t found in
        issue_turn_now-Result plan laws conv t st a (ended-Ready l) running active turn
  ]
    where
      ended-Linked :
          Linked plan nowhere a.delays a.inflight a.active a.started a.conversations
          → Linked plan
              (at conv)
              (erase conv a.delays)
              a.inflight
              a.active
              a.started
              a.conversations
      ended-Linked l =
          let less : (c : String) → keys c (erase conv a.delays) + at conv c ≡ keys c a.delays =
            λ c. keys-erase c conv a.delays (ap is_some found) in
          record {
            balanced = λ c. omega (arith, l.balanced c, less c);
            single = l.single;
            due = λ c u e. elim (Bool-cases (str_eq conv c)) [
              | inl same ↦
                  let k : 0 < keys c (erase conv a.delays) =
                    keys-found c u (erase conv a.delays) e in
                  let one = ap one_if same in
                  absurd (omega (arith, k, less c, l.balanced c, l.single c, one))
              | inr other ↦ l.due c u (sym (lookup-erase c conv a.delays other) ∙ e)
            ];
            drawn = l.drawn;
            met = l.met;
          }

      ended-Ready :
          Linked plan nowhere a.delays a.inflight a.active a.started a.conversations
          → Ready plan laws (at conv) (record a { delays = erase conv a.delays })
      ended-Ready l = record {
        linked = λ _. ended-Linked l;
        budgeted = h.budgeted;
        idle = λ stopping. ap (erase conv) (h.idle stopping) ∙ erase_nil conv;
        known = h.known;
        taken = h.taken;
      }

  event-Result :
      (e : Event) (a : Strategy S) → IsLive plan laws a → Result plan laws (take_event plan ops e a)
  unfolding take_event on_sample_complete handle_timeout end_delay
  event-Result (response q e) a h = elim (Option-cases (lookup q a.inflight)) [
    | inl late ↦ subst (λ o. Result plan laws (routed plan ops q e o a)) (sym late) (inr h)
    | inr (conv, found) ↦
        subst (λ o. Result plan laws (routed plan ops q e o a)) (sym found)
          (routed-Result q conv e a h.ready found)
  ]
  event-Result (timeout q) a h = elim (Option-cases (lookup q a.inflight)) [
    | inl late ↦ subst (λ o. Result plan laws (timed_out plan ops q o a)) (sym late) (inr h)
    | inr (conv, found) ↦
        subst (λ o. Result plan laws (timed_out plan ops q o a)) (sym found)
          (timed_out-Result q conv a h.ready found)
  ]
  event-Result (delay_ends conv) a h = elim (Option-cases (lookup conv a.delays)) [
    | inl gone ↦ subst (λ o. Result plan laws (delay_over plan ops conv o a)) (sym gone) (inr h)
    | inr (t, found) ↦
        subst (λ o. Result plan laws (delay_over plan ops conv o a)) (sym found)
          (end_delay-Result conv t a h.ready found)
  ]

  pub events-Result :
      (es : List Event) (a : Strategy S)
      → Result plan laws a
      → Result plan laws (take_events plan ops es a)
  unfolding take_events
  events-Result [] a h = h
  events-Result (e ∷ es) a (inl done) =
      events-Result es (take_event plan ops e a) (inl (event-IsDone plan ops e a done))
  events-Result (e ∷ es) a (inr live) =
      events-Result es (take_event plan ops e a) (event-Result e a live)
