-- ===== src/LoadGen/Agentic/Issued.antt =====
-- load_generator/agentic_inference_strategy.py: after a turn is issued, or issuing stops, the strategy is
-- done or waits for something.
use mathlib.Core.Path.{subst}
use endpoints.Base.{
  ℕ, ◌+◌, ◌<◌, Bool, true, false, ◌≡◌, refl, sym, ap, ◌∙◌, inl, inr, Option, none, some, List, [],
  ◌∷◌, String, str_eq, eq_refl, if◌then◌else◌, if_true, if_false, if_both, length, get_elem?,
  is_some, arith, Bool-cases, Option-cases, eq→==,
}
use endpoints.Base.Dict.{Dict, lookup, insert, erase, contains, lookup-insert}
use endpoints.Base.Tally.{
  one_if, keys, keys-insert, keys-insert_there, keys-found, found-keys, values-insert, insert-pos,
  same_text,
}
use endpoints.Core.Output.{Json}
use endpoints.LoadGen.Issuer.{Answer, refused, accepted, raised}
use endpoints.LoadGen.Conversation.{Conversations}
use endpoints.LoadGen.Trajectories.{ConversationTurn, Plan}
use endpoints.LoadGen.Agentic.{
  Active, Issuer, Strategy, is_empty, signal_done_if_no_inflight, request_stop_issuing, after_issue,
  issue_data, same_turn, issue_active, issue_turn_now,
}
use endpoints.LoadGen.Agentic.Linked.{GivesFresh, Linked, at, nowhere, Ready, Result}

same_turn_refl : (t : ConversationTurn) → same_turn t (some t) ≡ true
same_turn_refl (i, n) = rw (eq→== i i refl, eq→== n n refl) refl

pub at_self : (c : String) → at c c ≡ 1
at_self c = ap one_if (eq_refl c)

pub nonempty-pos {ℓ} : {A : Type ℓ} (xs : List A) → is_empty xs ≡ false → 0 < length xs
nonempty-pos [] h = absurd (cc)
nonempty-pos (x ∷ xs) h = omega arith

pub both_ways : {b : Bool} → b ≡ true → b ≡ false → ⊥
both_ways p q = absurd (cc)

-- a conversation that the hole counts has nothing outstanding
module _ (plan : Plan) (conv : String) (delays : Dict ConversationTurn) (inflight : Dict String)
    (active : Dict Active) (started : ℕ) (met : Conversations)
    (h : Linked plan (at conv) delays inflight active started met) where
  pub undelayed : keys conv delays ≡ 0
  undelayed = omega (arith, h.balanced conv, h.single conv, at_self conv)

  pub absent_delay : contains conv delays ≡ false
  absent_delay = elim (Bool-cases (contains conv delays)) [
    | inl there ↦ elim (Option-cases (lookup conv delays)) [
      | inl none_there ↦ absurd (both_ways there (ap is_some none_there))
      | inr (t, found) ↦ absurd (omega (arith, keys-found conv t delays found, undelayed))
    ]
    | inr absent ↦ absent
  ]

  pub there : 0 < keys conv active
  there = omega (arith, h.balanced conv, at_self conv)

  -- the conversation's turn is sent
  pub sent-Linked :
      (q : String) (st : Active)
      → contains q inflight ≡ false
      → Linked plan nowhere delays (insert q conv inflight) (insert conv st active) started met
  sent-Linked q st new =
      let same : (c : String) → keys c (insert conv st active) ≡ keys c active =
        λ c. keys-insert_there c conv st active (found-keys conv active there) in
      record {
        balanced = λ c. omega (arith, h.balanced c, same c, values-insert c q conv inflight new);
        single = λ c. omega (arith, h.single c, same c);
        due = λ c t e. elim (Bool-cases (str_eq conv c)) [
          | inl here ↦
              let k : 0 < keys c delays = keys-found c t delays e in
              absurd (
                omega (
                  arith,
                  undelayed,
                  subst (λ (x : String). 0 < keys x delays) (sym (same_text conv c here)) k,
                ))
          | inr other ↦
              let (old, found, turn) = h.due c t e in
              (old, lookup-insert conv c st active ∙ if_false _ _ _ other ∙ found, turn)
        ];
        drawn = λ c p. h.drawn c (omega (arith, p, same c));
        met = λ c p. h.met c (omega (arith, p, same c));
      }

module _ (plan : Plan) {S : Type 0} {ops : Issuer S} (laws : GivesFresh ops) where
  pub signal-Result :
      (a : Strategy S)
      → Ready plan laws nowhere a
      → a.stopping ≡ true
      → Result plan laws (signal_done_if_no_inflight a)
  signal-Result a h stopping =
      if_both (Result plan laws) (is_empty a.inflight) (λ _. inl refl)
        (λ left. inr (record { ready = h; waiting = omega (arith, nonempty-pos a.inflight left) }))

  -- the state with which issuing stops
  halted-Ready :
      (hole : String → ℕ) (a : Strategy S)
      → Ready plan laws hole a
      → Ready plan laws nowhere (record a { stopping = true; delays = []; active = [] })
  halted-Ready hole a h = record {
    linked = λ e. absurd (both_ways refl e);
    budgeted = h.budgeted;
    idle = λ _. refl;
    known = h.known;
    taken = h.taken;
  }

  pub stopped-Ready :
      (hole : String → ℕ) (a : Strategy S)
      → Ready plan laws hole a
      → a.stopping ≡ true
      → Ready plan laws nowhere a
  stopped-Ready hole a h stopping = record {
    linked = λ e. absurd (both_ways stopping e);
    budgeted = h.budgeted;
    idle = h.idle;
    known = h.known;
    taken = h.taken;
  }

  pub request-Result :
      (hole : String → ℕ) (a : Strategy S)
      → Ready plan laws hole a
      → Result plan laws (request_stop_issuing a)
  unfolding request_stop_issuing
  request-Result hole a h = elim (Bool-cases a.stopping) [
    | inl stopping ↦
        subst (λ b. Result plan laws (signal_done_if_no_inflight b))
          (sym (if_true a.stopping a _ stopping))
          (signal-Result a (stopped-Ready hole a h stopping) stopping)
    | inr running ↦
        subst (λ b. Result plan laws (signal_done_if_no_inflight b))
          (sym (if_false a.stopping a _ running)) (signal-Result _ (halted-Ready hole a h) refl)
  ]

  module _ (conv : String) (st : Active) (a : Strategy S) (h : Ready plan laws (at conv) a)
      (running : a.stopping ≡ false) where
    new_query :
        (t : ConversationTurn) (o : Option (Dict Json)) (q : String)
        → (ops.issue t conv o a.issuer).0 ≡ accepted q
        → contains q a.inflight ≡ false
    new_query t o q e = elim (Option-cases (lookup q a.inflight)) [
      | inl absent ↦ ap is_some absent
      | inr (c, found) ↦
          absurd (laws.fresh t conv o a.issuer q e (h.taken q (keys-found q c a.inflight found)))
    ]

    after_issue-Result :
        (t : ConversationTurn) (o : Option (Dict Json)) (r : Answer × S)
        → ops.issue t conv o a.issuer ≡ r
        → Result plan laws (after_issue conv st r a)
    after_issue-Result t o (refused, s) e =
        request-Result (at conv) (record a { issuer = s })
          (record {
            linked = h.linked;
            budgeted = h.budgeted;
            idle = h.idle;
            known = h.known;
            taken = λ q p.
                subst (λ (x : Answer × S). laws.Taken x.1 q) e
                  (laws.kept_issue t conv o a.issuer q (h.taken q p));
          })
    after_issue-Result t o (raised, s) e = inl refl
    after_issue-Result t o (accepted q, s) e =
        let l = h.linked running in
        let new = new_query t o q (ap (λ (x : Answer × S). x.0) e) in
        inr (record {
          ready = record {
            linked = λ _.
                sent-Linked plan conv a.delays a.inflight a.active a.started a.conversations l q
                  (record st { cursor = st.cursor + 1 }) new;
            budgeted = h.budgeted;
            idle = h.idle;
            known = λ c p. elim (Bool-cases (str_eq conv c)) [
              | inl same ↦
                  subst (λ x. contains x a.conversations ≡ true) (same_text conv c same)
                    (l.met conv
                      (there plan conv a.delays a.inflight a.active a.started a.conversations l))
              | inr other ↦
                  let zero = ap one_if other in
                  h.known c (omega (arith, p, values-insert c q conv a.inflight new, zero))
            ];
            taken = λ r p. elim (Bool-cases (str_eq q r)) [
              | inl same ↦
                  subst (λ x. laws.Taken s x) (same_text q r same)
                    (subst (λ (x : Answer × S). laws.Taken x.1 q) e
                      (laws.marked t conv o a.issuer q (ap (λ (x : Answer × S). x.0) e)))
              | inr other ↦
                  let zero = ap one_if other in
                  subst (λ (x : Answer × S). laws.Taken x.1 r) e
                    (laws.kept_issue t conv o a.issuer r
                      (h.taken r (omega (arith, p, keys-insert r q conv a.inflight new, zero))))
            ];
          };
          waiting = omega (arith, insert-pos q conv a.inflight);
        })

    issue_active-Result :
        (t : ConversationTurn)
        → get_elem? st.turns st.cursor ≡ some t
        → Result plan laws (issue_active plan ops conv t (some st) a)
    issue_active-Result t e =
        subst
          (λ (b : Bool). Result plan laws (if b then issue_data ops conv t st override a else a))
          (sym (ap (same_turn t) e ∙ same_turn_refl t)) (data-Result override)
      where
        override : Option (Option (Dict Json))
        override = plan.data_override st.source_id t.1 st.repeat_id

        data-Result :
            (o : Option (Option (Dict Json))) → Result plan laws (issue_data ops conv t st o a)
        data-Result none = inl refl
        data-Result (some o) = after_issue-Result t o (ops.issue t conv o a.issuer) refl

  -- a turn that is due, of a conversation that has nothing else outstanding
  pub issue_turn_now-Result :
      (conv : String) (t : ConversationTurn) (st : Active) (a : Strategy S)
      → Ready plan laws (at conv) (record a { delays = erase conv a.delays })
      → a.stopping ≡ false
      → lookup conv a.active ≡ some st
      → get_elem? st.turns st.cursor ≡ some t
      → Result plan laws (issue_turn_now plan ops conv t a)
  unfolding issue_turn_now
  issue_turn_now-Result conv t st a h running found turn =
      let b = record a { delays = erase conv a.delays } in
      subst (λ (x : Strategy S). Result plan laws x)
        (sym (if_false _ _ _ running ∙ ap (λ o. issue_active plan ops conv t o b) found))
        (issue_active-Result conv st b h running t turn)
