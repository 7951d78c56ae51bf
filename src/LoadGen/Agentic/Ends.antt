-- ===== src/LoadGen/Agentic/Ends.antt =====
-- load_generator/agentic_inference_strategy.py: `execute` ends once the events that it waits for have come.
use endpoints.Base.{
  ℕ, zero, suc, ◌+◌, ◌*◌, ◌≤◌, ◌<◌, Bool, true, ◌≡◌, refl, sym, ap, ◌∙◌, List, [], ◌∷◌, ◌++◌, ◌&&◌,
  length, length-append, arith, inl, inr,
}
use endpoints.LoadGen.Conversation.{Conversations}
use endpoints.LoadGen.Trajectories.{Plan, planned_turns, trajectory_budget}
use endpoints.LoadGen.Agentic.{Issuer, Strategy}
use endpoints.LoadGen.Agentic.Events.{
  Event, begin, take_event, take_events, initial_conversations_to_start,
}
use endpoints.LoadGen.Agentic.Linked.{GivesFresh}
use endpoints.LoadGen.Agentic.Opened.{AreDistinct}
use endpoints.LoadGen.Agentic.Progress.{is_due, are_due, take_events-finite}
use endpoints.LoadGen.Agentic.Live.{take_events-waits}

and_true : {a b : Bool} → a ≡ true → b ≡ true → (a && b) ≡ true
and_true p q = ground arith

and_parts : {a b : Bool} → (a && b) ≡ true → (a ≡ true) × (b ≡ true)
and_parts h = ground arith

append-one : {A : Type 0} (xs ys : List A) (x : A) → (xs ++ x ∷ []) ++ ys ≡ xs ++ x ∷ ys
append-one [] ys x = refl
append-one (z ∷ xs) ys x = ap (◌∷◌ z) (append-one xs ys x)

append_none : {A : Type 0} (xs : List A) → xs ++ [] ≡ xs
append_none [] = refl
append_none (x ∷ xs) = ap (◌∷◌ x) (append_none xs)

module _ (plan : Plan) {S : Type 0} (ops : Issuer S) where
  are_due-append :
      (es : List Event) (e : Event) (a : Strategy S)
      → are_due plan ops es a ≡ true
      → is_due e (take_events plan ops es a) ≡ true
      → are_due plan ops (es ++ e ∷ []) a ≡ true
  unfolding are_due take_events
  are_due-append [] e a due next = and_true next refl
  are_due-append (d ∷ es) e a due next =
      let (first, rest) = and_parts due in
      and_true first (are_due-append es e (take_event plan ops d a) rest next)

-- What a strategy may wait for in all: three times the planned turns of the trajectories, and one for
-- each conversation that is started at first.
abbrev pub most_events : Plan → ℕ
most_events plan =
    3 * planned_turns plan (trajectory_budget plan) 0 + initial_conversations_to_start plan

module _ (plan : Plan) {S : Type 0} {ops : Issuer S} (laws : GivesFresh ops)
    (distinct : AreDistinct plan) (s : S) (m : Conversations) where
  -- `es`, and events after it, are due one after the other, and at their end the strategy is done
  pub record IsEnding (es : List Event) : Type 0 where
    pub more : List Event
    pub due : are_due plan ops (es ++ more) (begin plan ops s m) ≡ true
    pub ends : (take_events plan ops (es ++ more) (begin plan ops s m)).all_done ≡ true

  continued : (es : List Event) (e : Event) → IsEnding (es ++ e ∷ []) → IsEnding es
  continued es e h = record {
    more = e ∷ h.more;
    due = ap (λ l. are_due plan ops l (begin plan ops s m)) (sym (append-one es h.more e)) ∙ h.due;
    ends =
        ap (λ l. (take_events plan ops l (begin plan ops s m)).all_done)
          (sym (append-one es h.more e))
        ∙ h.ends;
  }

  ending :
      (k : ℕ) (es : List Event)
      → most_events plan < length es + k
      → are_due plan ops es (begin plan ops s m) ≡ true
      → IsEnding es
  ending zero es enough due = absurd (omega (arith, enough, take_events-finite plan ops es s m due))
  ending (suc k) es enough due = elim (take_events-waits plan laws distinct es s m) [
    | inl done ↦ record {
      more = [];
      due = ap (λ l. are_due plan ops l (begin plan ops s m)) (append_none es) ∙ due;
      ends =
          ap (λ l. (take_events plan ops l (begin plan ops s m)).all_done) (append_none es) ∙ done;
    }
    | inr (e, next) ↦ continued es e (
        ending k (es ++ e ∷ []) (omega (arith, enough, length-append es (e ∷ [])))
          (are_due-append plan ops es e (begin plan ops s m) due next))
  ]

  -- Where no two trajectories of the budget have the same logical identifier, and the issuer gives no
  -- identifier of a query twice: any events that are due one after the other number at most three times
  -- the planned turns and one for each conversation started at first; where no event is due after them,
  -- the strategy is done; and they can be continued by due events to where it is done.
  pub take_events-ends :
      (es : List Event)
      → are_due plan ops es (begin plan ops s m) ≡ true
      → (length es ≤ most_events plan)
        × (((e : Event) → ¬ (is_due e (take_events plan ops es (begin plan ops s m)) ≡ true))
            → (take_events plan ops es (begin plan ops s m)).all_done ≡ true)
        × IsEnding es
  take_events-ends es due = (
    take_events-finite plan ops es s m due,
    λ none_due. elim (take_events-waits plan laws distinct es s m) [
      | inl done ↦ done
      | inr (e, next) ↦ absurd (none_due e next)
    ],
    ending (suc (most_events plan)) es (omega arith) due,
  )
