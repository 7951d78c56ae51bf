-- ===== src/LoadGen/Agentic/Started.antt =====
-- load_generator/agentic_inference_strategy.py: `_fill_slot` and `_start_conversation` end with a strategy
-- that is done or waits for something; the fuel suffices.
use mathlib.Core.Path.{subst}
use endpoints.Base.{
  ℕ, zero, suc, ◌<◌, Bool, true, false, ◌≡◌, refl, sym, ap, ◌∙◌, inl, inr, Option, none, some, [],
  ◌∷◌, String, eq_refl, ltb→lt, not, ◌||◌, ◌-◌, if_true, if_false, if_both, length, ◌&&◌, arith,
  Bool-cases,
}
use endpoints.Base.Dict.{Dict, lookup}
use endpoints.Base.Tally.{keys, values, keys-found}
use endpoints.LoadGen.Trajectories.{
  ConversationTurn, Plan, Instance, instance_at, trajectory_budget,
}
use endpoints.LoadGen.Agentic.{
  Active, Issuer, Strategy, is_empty, has_more_conversation_instances, has_work_remaining,
  start_instance, start_conversation,
}
use endpoints.LoadGen.Agentic.Events.{fill_on, fill_slot}
use endpoints.LoadGen.Agentic.Load.{load}
use endpoints.LoadGen.Agentic.Linked.{GivesFresh, Linked, nowhere, Ready, Result}
use endpoints.LoadGen.Agentic.Issued.{both_ways, signal-Result}
use endpoints.LoadGen.Agentic.Filled.{Enough, Fills, issue_next_turn-Result}
use endpoints.LoadGen.Agentic.Opened.{AreDistinct, opened, opened-Ready}

second_true : (a b : Bool) → (a && b) ≡ true → b ≡ true
second_true a b h = ground arith

unnot : (b : Bool) → not b ≡ false → b ≡ true
unnot b h = ground arith

found_first {ℓ} : {V : Type ℓ} (c : String) (v : V) (d : Dict V) → lookup c ((c, v) ∷ d) ≡ some v
unfolding lookup
found_first c v d = if_true _ _ _ (eq_refl c)

module _ (plan : Plan) {S : Type 0} {ops : Issuer S} (laws : GivesFresh ops)
    (distinct : AreDistinct plan) where
  instance-Result :
      (fill : Strategy S → Strategy S) (n : ℕ) (ok : Fills plan laws n fill) (o : Option Instance)
      (a : Strategy S)
      → Ready plan laws nowhere a
      → a.stopping ≡ false
      → instance_at plan a.started ≡ o
      → a.started < trajectory_budget plan
      → Enough plan laws (suc n) a.started
      → Result plan laws (start_instance plan ops fill o a)
  instance-Result fill n ok none a h running this more lt = inl refl
  instance-Result fill n ok (some i) a h running this more lt =
      issue_next_turn-Result plan laws fill n ok i.logical_id (opened plan laws distinct i a)
        (opened-Ready plan laws distinct i a h running this more) running
        (omega (arith, lt.0), omega (arith, more))

  more_left :
      (a : Strategy S)
      → has_more_conversation_instances plan a ≡ true
      → a.started < trajectory_budget plan
  more_left a h =
      ltb→lt a.started (trajectory_budget plan) (second_true (not (is_empty plan.base_convs)) _ h)

  pub start-Result :
      (fill : Strategy S → Strategy S) (n : ℕ) (ok : Fills plan laws n fill) (a : Strategy S)
      → Ready plan laws nowhere a
      → a.stopping ≡ false
      → has_more_conversation_instances plan a ≡ true
      → Enough plan laws (suc n) a.started
      → Result plan laws (start_conversation plan ops fill a)
  unfolding start_conversation
  start-Result fill n ok a h running more lt =
      subst (λ (x : Strategy S). Result plan laws x)
        (sym (if_false _ _ _ running ∙ if_true _ _ _ more))
        (instance-Result fill n ok (instance_at plan a.started) a h running refl (more_left a more)
          lt)

  -- work that remains, with no trajectory left, is outstanding
  waits-Result :
      (a : Strategy S)
      → Ready plan laws nowhere a
      → a.stopping ≡ false
      → has_more_conversation_instances plan a ≡ false
      → has_work_remaining plan a ≡ true
      → Result plan laws a
  waits-Result a h running out work =
      let w = sym (if_false _ _ _ running) ∙ work in
      inr (record {
        ready = h;
        waiting = outstanding a.active refl a.inflight refl a.delays refl (
            subst
              (λ b.
                (not (is_empty a.active)
                  || (not (is_empty a.inflight) || not (is_empty a.delays))
                  || b)
                ≡ true)
              out w);
      })
    where
      l : Linked plan nowhere a.delays a.inflight a.active a.started a.conversations
      l = h.linked running

      outstanding :
          (d : Dict Active)
          → a.active ≡ d
          → (q : Dict String) → a.inflight ≡ q
          → (w : Dict ConversationTurn) → a.delays ≡ w
          → (not (is_empty d) || (not (is_empty q) || not (is_empty w)) || false) ≡ true
          → 0 < load a
      outstanding d ed (x ∷ q) eq w ew work = let e = ap length eq in omega (arith, e)
      outstanding d ed [] eq (x ∷ w) ew work = let e = ap length ew in omega (arith, e)
      outstanding ((c, st) ∷ d) ed [] eq [] ew work =
          let k : 0 < keys c a.active =
            subst (λ x. 0 < keys c x) (sym ed)
              (keys-found c st ((c, st) ∷ d) (found_first c st d)) in
          let none_queued : values c a.inflight ≡ 0 = ap (values c) eq in
          let none_delayed : keys c a.delays ≡ 0 = ap (keys c) ew in
          absurd (omega (arith, l.balanced c, k, none_queued, none_delayed))
      outstanding [] ed [] eq [] ew work = absurd (both_ways work refl)

  pub fill_on-Fills : (n : ℕ) → Fills plan laws n (fill_on plan ops n)
  unfolding fill_on
  fill_on-Fills zero a h lt = absurd (omega (arith, lt.0, lt.1))
  fill_on-Fills (suc n) a h lt = elim (Bool-cases a.stopping) [
    | inl stopping ↦
        subst (λ (x : Strategy S). Result plan laws x) (sym (if_true _ _ _ stopping))
          (signal-Result plan laws a h stopping)
    | inr running ↦
        subst (λ (x : Strategy S). Result plan laws x) (sym (if_false _ _ _ running))
          (if_both (Result plan laws) (has_more_conversation_instances plan a)
            (λ more. start-Result (fill_on plan ops n) n (fill_on-Fills n) a h running more lt)
            (λ out.
              if_both (Result plan laws) (not (has_work_remaining plan a)) (λ _. inl refl)
                (λ work. waits-Result a h running out (unnot _ work))))
  ]

  pub fill_slot-Result :
      (a : Strategy S) → Ready plan laws nowhere a → Result plan laws (fill_slot plan ops a)
  unfolding fill_slot
  fill_slot-Result a h =
      fill_on-Fills (suc (trajectory_budget plan - a.started)) a h
        (omega (arith, h.budgeted), h.budgeted)
