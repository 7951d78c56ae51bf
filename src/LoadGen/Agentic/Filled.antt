-- ===== src/LoadGen/Agentic/Filled.antt =====
-- load_generator/agentic_inference_strategy.py: after a slot is filled, the strategy is done or waits for
-- something.
use mathlib.Core.Path.{subst}
use endpoints.Base.{
  ℕ, ◌+◌, ◌≤◌, ◌<◌, false, ◌≡◌, refl, sym, ap, ◌∙◌, inl, inr, Option, none, some, String, str_eq,
  if_true, if_false, if_both, get_elem?, is_some, arith, Bool-cases, Option-cases,
}
use endpoints.Base.Dict.{lookup, insert, erase, lookup-insert}
use endpoints.Base.Tally.{keys-insert, found-keys, erase_absent, insert-pos, same_text}
use endpoints.LoadGen.Trajectories.{ConversationTurn, Plan, trajectory_budget}
use endpoints.LoadGen.Agentic.{
  Active, Issuer, Strategy, issue_turn_now, stop_tracking, has_more_conversation_instances,
  finish_conversation, schedule, next_of, issue_next_turn,
}
use endpoints.LoadGen.Agentic.Linked.{GivesFresh, at, nowhere, Ready, Result}
use endpoints.LoadGen.Agentic.Erased.{erased-Ready}
use endpoints.LoadGen.Agentic.Issued.{
  both_ways, absent_delay, there, request-Result, issue_turn_now-Result,
}

abbrev value_or {ℓ} : {A : Type ℓ} → A → Option A → A
value_or a none = a
value_or a (some b) = b

module _ (plan : Plan) {S : Type 0} {ops : Issuer S} (laws : GivesFresh ops) where
  tracking-Ready :
      (hole : String → ℕ) (a : Strategy S)
      → Ready plan laws hole a
      → Ready plan laws hole (stop_tracking ops a)
  unfolding stop_tracking
  tracking-Ready hole a h =
      if_both (Ready plan laws hole) a.tracking_stopped (λ _. h)
        (λ _. record {
          linked = h.linked;
          budgeted = h.budgeted;
          idle = h.idle;
          known = h.known;
          taken = λ q p. laws.kept_stop a.issuer q (h.taken q p);
        })

  stop_tracking-started : (a : Strategy S) → (stop_tracking ops a).started ≡ a.started
  unfolding stop_tracking
  stop_tracking-started a =
      if_both (λ (b : Strategy S). b.started ≡ a.started) a.tracking_stopped (λ _. refl) (λ _. refl)

  -- fuel `n` for the trajectories after the first `k`
  abbrev pub Enough : ℕ → ℕ → Type 0
  Enough n k = (trajectory_budget plan < k + n) × (k ≤ trajectory_budget plan)

  -- What a call of `_fill_slot` is good for, with fuel for `n` more trajectories.
  abbrev pub Fills : ℕ → (Strategy S → Strategy S) → Type 0
  Fills n fill =
      (b : Strategy S) → Ready plan laws nowhere b → Enough n b.started → Result plan laws (fill b)

  module _ (fill : Strategy S → Strategy S) (n : ℕ) (ok : Fills n fill) where
    pub finish-Result :
        (conv : String) (b : Strategy S)
        → Ready plan laws nowhere (record b { active = erase conv b.active })
        → Enough n b.started
        → Result plan laws (finish_conversation plan ops fill conv b)
    unfolding finish_conversation
    finish-Result conv b r lt =
        let a = record b { active = erase conv b.active } in
        if_both (Result plan laws) (has_more_conversation_instances plan a) (λ _. ok a r lt)
          (λ _.
            if_both (Result plan laws) plan.stop_issuing_on_first_user_complete
              (λ _.
                request-Result plan laws nowhere (stop_tracking ops a) (tracking-Ready nowhere a r))
              (λ _.
                ok (stop_tracking ops a) (tracking-Ready nowhere a r)
                  (subst (Enough n) (sym (stop_tracking-started a)) lt)))

    waiting-Result :
        (conv : String) (t : ConversationTurn) (st : Active) (a : Strategy S)
        → Ready plan laws (at conv) a
        → a.stopping ≡ false
        → lookup conv a.active ≡ some st
        → get_elem? st.turns st.cursor ≡ some t
        → Result plan laws (record a { delays = insert conv t a.delays })
    waiting-Result conv t st a h running found turn =
        let l = h.linked running in
        let absent =
          absent_delay plan conv a.delays a.inflight a.active a.started a.conversations l in
        inr (record {
          ready = record {
            linked = λ _. record {
              balanced = λ c. omega (arith, l.balanced c, keys-insert c conv t a.delays absent);
              single = l.single;
              due = λ c u e. elim (Bool-cases (str_eq conv c)) [
                | inl same ↦
                    let is : t ≡ u =
                      ap (value_or t)
                        (sym (if_true _ _ _ same) ∙ sym (lookup-insert conv c t a.delays) ∙ e) in
                    (
                      st,
                      subst (λ x. lookup x a.active ≡ some st) (same_text conv c same) found,
                      turn ∙ ap some is,
                    )
                | inr other ↦
                    l.due c u
                      (sym (if_false _ _ _ other) ∙ sym (lookup-insert conv c t a.delays) ∙ e)
              ];
              drawn = l.drawn;
              met = l.met;
            };
            budgeted = h.budgeted;
            idle = λ e. absurd (both_ways e running);
            known = h.known;
            taken = h.taken;
          };
          waiting = omega (arith, insert-pos conv t a.delays);
        })

    now-Result :
        (conv : String) (t : ConversationTurn) (st : Active) (a : Strategy S)
        → Ready plan laws (at conv) a
        → a.stopping ≡ false
        → lookup conv a.active ≡ some st
        → get_elem? st.turns st.cursor ≡ some t
        → Result plan laws (issue_turn_now plan ops conv t a)
    now-Result conv t st a h running found turn =
        let l = h.linked running in
        let absent =
          absent_delay plan conv a.delays a.inflight a.active a.started a.conversations l in
        issue_turn_now-Result plan laws conv t st a
          (subst (λ d. Ready plan laws (at conv) (record a { delays = d }))
            (sym (erase_absent conv a.delays absent))
            (record {
              linked = h.linked;
              budgeted = h.budgeted;
              idle = h.idle;
              known = h.known;
              taken = h.taken;
            }))
          running found turn

    pub issue_next_turn-Result :
        (conv : String) (a : Strategy S)
        → Ready plan laws (at conv) a
        → a.stopping ≡ false
        → Enough n a.started
        → Result plan laws (issue_next_turn plan ops fill conv a)
    unfolding issue_next_turn
    issue_next_turn-Result conv a h running lt =
        let l = h.linked running in
        let here =
          found-keys conv a.active
            (there plan conv a.delays a.inflight a.active a.started a.conversations l) in
        elim (Option-cases (lookup conv a.active)) [
          | inl absent ↦ absurd (both_ways here (ap is_some absent))
          | inr (st, found) ↦
              subst (λ (x : Strategy S). Result plan laws x)
                (sym (if_false _ _ _ running ∙ ap (λ o. next_of plan ops fill conv o a) found))
                (elim (Option-cases (get_elem? st.turns st.cursor)) [
                  | inl over ↦
                      subst (λ o. Result plan laws (schedule plan ops fill conv st o a)) (sym over)
                        (finish-Result conv a (erased-Ready plan laws conv a h) lt)
                  | inr (t, turn) ↦
                      subst (λ o. Result plan laws (schedule plan ops fill conv st o a)) (sym turn)
                        (if_both (Result plan laws) (plan.delayed st.source_id t.1)
                          (λ _. waiting-Result conv t st a h running found turn)
                          (λ _. now-Result conv t st a h running found turn))
                ])
        ]
