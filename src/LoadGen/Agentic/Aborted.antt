-- ===== src/LoadGen/Agentic/Aborted.antt =====
-- load_generator/agentic_inference_strategy.py: after a conversation is abandoned, the strategy is done or
-- waits for something.
use mathlib.Core.Path.{subst}
use endpoints.Base.{
  suc, ◌+◌, Bool, true, false, ◌≡◌, refl, sym, ap, ◌∙◌, inl, inr, Option, none, some, List, [], ◌∷◌,
  String, is_some, arith, Bool-cases, Option-cases,
}
use endpoints.Base.Dict.{lookup, insert, erase, contains, contains-insert}
use endpoints.Base.Tally.{
  keys, values, keys-erase, found-keys, values-erase, erase_absent, erase_nil, absent_key,
}
use endpoints.Core.Output.{ErrorData}
use endpoints.LoadGen.Conversation.{Conversations, mark_turn, count_turn}
use endpoints.LoadGen.Trajectories.{ConversationTurn, Plan, trajectory_budget}
use endpoints.LoadGen.Agentic.{Issuer, Strategy, finish_conversation}
use endpoints.LoadGen.Agentic.Events.{
  fill_slot, skipped, or_keep, skip_turns, remaining_turns, abort_remaining_turns,
}
use endpoints.LoadGen.Agentic.Linked.{GivesFresh, Linked, at, nowhere, Ready, Result}
use endpoints.LoadGen.Agentic.Issued.{both_ways, at_self, absent_delay, there}
use endpoints.LoadGen.Agentic.Erased.{erased-Ready}
use endpoints.LoadGen.Agentic.Filled.{Enough, Fills, finish-Result}
use endpoints.LoadGen.Agentic.Opened.{AreDistinct}
use endpoints.LoadGen.Agentic.Started.{fill_slot-Result}

-- A turn of a conversation that the manager knows is marked.
pub mark_turn-known :
    (failed : Bool) (id : String) (m : Conversations)
    → contains id m ≡ true
    → (n : Conversations) × (mark_turn failed id m ≡ some n)
      × ((c : String) → contains c m ≡ true → contains c n ≡ true)
unfolding mark_turn
mark_turn-known failed id m h = elim (Option-cases (lookup id m)) [
  | inl absent ↦ absurd (both_ways h (ap is_some absent))
  | inr (s, found) ↦ (
    insert id (count_turn failed s) m,
    rw found refl,
    λ c k. contains-insert id c (count_turn failed s) m k,
  )
]

or_keep-kept :
    (id c : String) (m : Conversations)
    → contains c m ≡ true
    → contains c (or_keep (mark_turn true id m) m) ≡ true
unfolding mark_turn
or_keep-kept id c m h = elim (Option-cases (lookup id m)) [
  | inl absent ↦ rw absent h
  | inr (s, found) ↦ rw found (contains-insert id c (count_turn true s) m h)
]

module _ (plan : Plan) {S : Type 0} {ops : Issuer S} (laws : GivesFresh ops)
    (distinct : AreDistinct plan) where
  -- the conversation of a query that is no longer in flight
  pub erased_query-Ready :
      (q conv : String) (a : Strategy S) (m : Conversations) (s : S)
      → Ready plan laws nowhere a
      → lookup q a.inflight ≡ some conv
      → ((c : String) → contains c a.conversations ≡ true → contains c m ≡ true)
      → ((r : String) → laws.Taken a.issuer r → laws.Taken s r)
      → Ready plan laws
          (at conv)
          (record a { inflight = erase q a.inflight; conversations = m; issuer = s })
  erased_query-Ready q conv a m s h found met kept =
      let less : (c : String) → values c (erase q a.inflight) + at conv c ≡ values c a.inflight =
        λ c. values-erase c q conv a.inflight found in
      let fewer : (r : String) → keys r (erase q a.inflight) + at q r ≡ keys r a.inflight =
        λ r. keys-erase r q a.inflight (ap is_some found) in
      record {
        linked = λ running.
            let l = h.linked running in
            record {
              balanced = λ c. omega (arith, l.balanced c, less c);
              single = l.single;
              due = l.due;
              drawn = l.drawn;
              met = λ c p. met c (l.met c p);
            };
        budgeted = h.budgeted;
        idle = h.idle;
        known = λ c p. met c (h.known c (omega (arith, p, less c)));
        taken = λ r p. kept r (h.taken r (omega (arith, p, fewer r)));
      }

  skip_turns-kept :
      (conv : String) (e : ErrorData) (ts : List ConversationTurn) (m : Conversations) (s : S)
      → let r = skip_turns ops conv e ts (m, s) in
        ((c : String) → contains c m ≡ true → contains c r.0 ≡ true)
        × ((q : String) → laws.Taken s q → laws.Taken r.1 q)
  unfolding skip_turns
  skip_turns-kept conv e [] m s = (λ c h. h, λ q h. h)
  skip_turns-kept conv e (t ∷ ts) m s =
      skipped-kept (ops.register_skipped t conv s) (λ q h. laws.kept_skip t conv s q h)
        (λ u. skip_turns-kept conv e ts (or_keep (mark_turn true conv m) m) u)
    where
      n : Conversations
      n = or_keep (mark_turn true conv m) m

      skipped-kept :
          (r : Option String × S)
          → ((q : String) → laws.Taken s q → laws.Taken r.1 q)
          → ((u : S)
              → let x = skip_turns ops conv e ts (n, u) in
                ((c : String) → contains c n ≡ true → contains c x.0 ≡ true)
                × ((q : String) → laws.Taken u q → laws.Taken x.1 q))
          → let x = skipped ops conv t e n r (λ ms. skip_turns ops conv e ts ms) in
            ((c : String) → contains c m ≡ true → contains c x.0 ≡ true)
            × ((q : String) → laws.Taken s q → laws.Taken x.1 q)
      skipped-kept (none, u) kept rest = (λ c h. or_keep-kept conv c m h, kept)
      skipped-kept (some r, u) kept rest =
          let (met, more) = rest (ops.report r (conv, some t.1) e u) in
          (
            λ c h. met c (or_keep-kept conv c m h),
            λ q h. more q (laws.kept_report r (conv, some t.1) e u q (kept q h)),
          )

  pub enough :
      (a : Strategy S)
      → Ready plan laws nowhere a
      → Enough plan laws (suc (trajectory_budget plan)) a.started
  enough a h = (omega arith, h.budgeted)

  pub fills : Fills plan laws (suc (trajectory_budget plan)) (fill_slot plan ops)
  fills a h lt = fill_slot-Result plan laws distinct a h

  module _ (conv : String) (a : Strategy S) (h : Ready plan laws (at conv) a) where
    -- a turn of the conversation failed: its delay and its rest are dropped
    undelayed-eq : erase conv a.delays ≡ a.delays
    undelayed-eq = elim (Bool-cases a.stopping) [
      | inl stopping ↦ ap (erase conv) (h.idle stopping) ∙ erase_nil conv ∙ sym (h.idle stopping)
      | inr running ↦ erase_absent conv a.delays (
          absent_delay plan conv a.delays a.inflight a.active a.started a.conversations
            (h.linked running))
    ]

    erased_twice : a.stopping ≡ false → erase conv (erase conv a.active) ≡ erase conv a.active
    erased_twice running =
        let l = h.linked running in
        let here =
          found-keys conv a.active
            (there plan conv a.delays a.inflight a.active a.started a.conversations l) in
        let one = at_self conv in
        erase_absent conv (erase conv a.active) (
          absent_key conv (erase conv a.active)
            (omega (arith, keys-erase conv conv a.active here, l.single conv, one)))

    aborted-Ready :
        (reason : String)
        → let b = abort_remaining_turns ops conv reason a in
          Ready plan laws nowhere (record b { active = erase conv b.active })
    unfolding abort_remaining_turns
    aborted-Ready reason =
        let e : ErrorData = record {
          error_type = "TurnAbortedByPriorFailure";
          error_message = reason;
        } in
        let ts = remaining_turns ops (lookup conv a.active) in
        let (met, kept) = skip_turns-kept conv e ts a.conversations a.issuer in
        let r = erased-Ready plan laws conv a h in
        record {
          linked = λ running.
              let l = r.linked running in
              let m = (skip_turns ops conv e ts (a.conversations, a.issuer)).0 in
              subst
                (λ d.
                  Linked plan nowhere d a.inflight (erase conv (erase conv a.active)) a.started m)
                (sym undelayed-eq)
                (subst (λ d. Linked plan nowhere a.delays a.inflight d a.started m)
                  (sym (erased_twice running))
                  (record {
                    balanced = l.balanced;
                    single = l.single;
                    due = l.due;
                    drawn = l.drawn;
                    met = λ c p. met c (l.met c p);
                  }));
          budgeted = h.budgeted;
          idle = λ stopping. undelayed-eq ∙ h.idle stopping;
          known = λ c p. met c (h.known c p);
          taken = λ q p. kept q (h.taken q p);
        }

    pub aborted-Result :
        (reason : String)
        → Result plan laws (
            finish_conversation plan ops
              (fill_slot plan ops)
              conv
              (abort_remaining_turns ops conv reason a))
    unfolding abort_remaining_turns
    aborted-Result reason =
        finish-Result plan laws (fill_slot plan ops) (suc (trajectory_budget plan)) fills conv
          (abort_remaining_turns ops conv reason a) (aborted-Ready reason) (omega arith, h.budgeted)
