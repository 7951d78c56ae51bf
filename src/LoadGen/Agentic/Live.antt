-- ===== src/LoadGen/Agentic/Live.antt =====
-- load_generator/agentic_inference_strategy.py: `execute` waits only while a query is in flight or a turn is
-- delayed.
use mathlib.Core.Path.{subst}
use endpoints.Base.{
  ℕ, zero, suc, ◌<◌, Bool, true, false, not, ◌≡◌, refl, sym, ap, ◌∙◌, Option, none, some, List, [],
  ◌∷◌, String, ltb, if◌then◌else◌, if_both, ltb→lt, ◌&&◌, if_true, length, is_some, arith,
  Bool-cases, eq_refl, if_false, ◌⊎◌, inl, inr,
}
use endpoints.Base.Dict.{Dict, lookup, contains}
use endpoints.LoadGen.Conversation.{Conversations}
use endpoints.LoadGen.Trajectories.{ConversationTurn, Plan, trajectory_budget}
use endpoints.LoadGen.Agentic.{
  Issuer, Strategy, is_empty, has_more_conversation_instances, has_work_remaining,
  start_conversation,
}
use endpoints.LoadGen.Agentic.Events.{
  fill_slot, initial_conversations_to_start, min, wanted, start_all, fresh, begin, Event, timeout,
  delay_ends, take_events,
}
use endpoints.LoadGen.Agentic.Load.{load}
use endpoints.LoadGen.Agentic.Linked.{GivesFresh, nowhere, Ready, Result}
use endpoints.LoadGen.Agentic.Issued.{nonempty-pos}
use endpoints.LoadGen.Agentic.Opened.{AreDistinct}
use endpoints.LoadGen.Agentic.Started.{start-Result}
use endpoints.LoadGen.Agentic.Done.{started-IsDone}
use endpoints.LoadGen.Agentic.Aborted.{fills}
use endpoints.LoadGen.Agentic.Waiting.{events-Result}
use endpoints.LoadGen.Agentic.Started.{start-Result}
use endpoints.LoadGen.Agentic.Aborted.{fills}
use endpoints.LoadGen.Agentic.Done.{started-IsDone}
use endpoints.LoadGen.Agentic.Progress.{is_due}

zero_or_suc : (n : ℕ) → (n ≡ 0) ⊎ ((j : ℕ) × (n ≡ suc j))
zero_or_suc zero = inl refl
zero_or_suc (suc j) = inr (j, refl)

min_zero : (m n : ℕ) → min m n ≡ 0 → 0 < m → n ≡ 0
min_zero m n e lt = ground arith

second_false : (b c : Bool) → c ≡ false → (b && c) ≡ false
second_false b c e = ground arith

not_below : (n : ℕ) → n ≡ 0 → ltb 0 n ≡ false
not_below n e = ground arith

wanted-pos : (plan : Plan) (o : Option ℕ) → is_empty plan.base_convs ≡ false → 0 < wanted plan o
wanted-pos plan none full = nonempty-pos plan.base_convs full
wanted-pos plan (some n) full =
    if_both (λ k. 0 < k) (ltb 0 n) (λ lt. ltb→lt 0 n lt) (λ _. nonempty-pos plan.base_convs full)

lookup_nil {ℓ} : {V : Type ℓ} (k : String) → lookup {V = V} k [] ≡ none
unfolding lookup
lookup_nil k = refl

contains_first {ℓ} : {V : Type ℓ} (k : String) (v : V) (d : Dict V) → contains k ((k, v) ∷ d) ≡ true
unfolding lookup
contains_first k v d = ap is_some (if_true _ _ _ (eq_refl k))

module _ (plan : Plan) {S : Type 0} {ops : Issuer S} (laws : GivesFresh ops)
    (distinct : AreDistinct plan) where
  fresh-Ready : (s : S) (m : Conversations) → Ready plan laws nowhere (fresh s m)
  fresh-Ready s m = record {
    linked = λ _. record {
      balanced = λ c. omega arith;
      single = λ c. omega arith;
      due = λ c t e. let k : none ≡ some t = sym (lookup_nil c) ∙ e in absurd (cc);
      drawn = λ c p. absurd (omega (arith, p));
      met = λ c p. absurd (omega (arith, p));
    };
    budgeted = omega arith;
    idle = λ e. refl;
    known = λ c p. absurd (omega (arith, p));
    taken = λ q p. absurd (omega (arith, p));
  }

  running-Result :
      (a : Strategy S)
      → Ready plan laws nowhere a
      → a.stopping ≡ false
      → Result plan laws (start_conversation plan ops (fill_slot plan ops) a)
  unfolding start_conversation
  running-Result a h running = elim (Bool-cases (has_more_conversation_instances plan a)) [
    | inl more ↦
        start-Result plan laws distinct (fill_slot plan ops) (suc (trajectory_budget plan))
          (fills plan laws distinct) a h running more (omega arith, h.budgeted)
    | inr out ↦
        subst (λ (x : Strategy S). Result plan laws x)
          (sym (if_false _ _ _ running ∙ if_false _ _ _ out))
          (fills plan laws distinct a h (omega arith, h.budgeted))
  ]

  live-Result :
      (a : Strategy S)
      → Result plan laws a
      → Result plan laws (start_conversation plan ops (fill_slot plan ops) a)
  unfolding start_conversation
  live-Result a (inl done) = inl (started-IsDone plan ops a done)
  live-Result a (inr live) = elim (Bool-cases a.stopping) [
    | inl stopping ↦
        subst (λ (x : Strategy S). Result plan laws x) (sym (if_true _ _ _ stopping)) (inr live)
    | inr running ↦ running-Result a live.ready running
  ]

  start_all-Result :
      (k : ℕ) (a : Strategy S) → Result plan laws a → Result plan laws (start_all plan ops k a)
  unfolding start_all
  start_all-Result zero a h = h
  start_all-Result (suc k) a h =
      let b = start_conversation plan ops (fill_slot plan ops) a in
      if_both (Result plan laws) b.error (λ _. live-Result a h)
        (λ _. start_all-Result k b (live-Result a h))

  first_starts :
      (k : ℕ) (s : S) (m : Conversations)
      → Result plan laws (start_all plan ops (suc k) (fresh s m))
  unfolding start_all
  first_starts k s m =
      let b = start_conversation plan ops (fill_slot plan ops) (fresh s m) in
      let h = running-Result (fresh s m) (fresh-Ready s m) refl in
      if_both (Result plan laws) b.error (λ _. h) (λ _. start_all-Result k b h)

  -- without a conversation to start there is no work
  idle_start :
      (s : S) (m : Conversations)
      → initial_conversations_to_start plan ≡ 0
      → has_work_remaining plan (fresh s m) ≡ false
  unfolding initial_conversations_to_start
  idle_start s m e = elim (Bool-cases (is_empty plan.base_convs)) [
    | inl empty ↦ ap (λ b. not b && ltb 0 (trajectory_budget plan)) empty
    | inr full ↦
        let none_left : trajectory_budget plan ≡ 0 =
          min_zero (wanted plan plan.target_concurrency) (trajectory_budget plan)
            (sym (if_false _ _ _ full) ∙ e) (wanted-pos plan plan.target_concurrency full) in
        second_false (not (is_empty plan.base_convs)) _ (not_below _ none_left)
  ]

  begin-Result : (s : S) (m : Conversations) → Result plan laws (begin plan ops s m)
  unfolding begin start_all
  begin-Result s m = elim (zero_or_suc k) [
    | inl none_first ↦
        subst (λ k. Result plan laws (chosen k)) (sym none_first)
          (subst (Result plan laws) (sym (if_false _ _ _ (idle_start s m none_first))) (inl refl))
    | inr (j, some_first) ↦
        if_both (Result plan laws) (has_work_remaining plan (start_all plan ops k (fresh s m)))
          (λ _.
            subst (λ k. Result plan laws (start_all plan ops k (fresh s m))) (sym some_first)
              (first_starts j s m))
          (λ _. inl refl)
  ]
    where
      k : ℕ
      k = initial_conversations_to_start plan

      chosen : ℕ → Strategy S
      chosen k =
          let a = start_all plan ops k (fresh s m) in
          if has_work_remaining plan a then a else record a { all_done = true }

  -- the event that a live strategy waits for
  due_of :
      (q : Dict String) (d : Dict ConversationTurn) (a : Strategy S)
      → a.inflight ≡ q
      → a.delays ≡ d
      → 0 < load a
      → (e : Event) × (is_due e a ≡ true)
  due_of ((q, c) ∷ qs) d a eq ed h = (timeout q, ap (contains q) eq ∙ contains_first q c qs)
  due_of [] ((c, t) ∷ d) a eq ed h = (delay_ends c, ap (contains c) ed ∙ contains_first c t d)
  due_of [] [] a eq ed h =
      let none_queued = ap length eq in
      let none_delayed = ap length ed in absurd (omega (arith, h, none_queued, none_delayed))

  -- Where no two trajectories of the budget have the same logical identifier, and the issuer gives no
  -- identifier of a query twice, after any events the strategy is done or an event is due: the timeout of
  -- a query in flight, or the end of a delay.
  pub take_events-waits :
      (es : List Event) (s : S) (m : Conversations)
      → let a = take_events plan ops es (begin plan ops s m) in
        (a.all_done ≡ true) ⊎ ((e : Event) × (is_due e a ≡ true))
  take_events-waits es s m =
      let a = take_events plan ops es (begin plan ops s m) in
      elim (events-Result plan laws distinct es (begin plan ops s m) (begin-Result s m)) [
        | inl done ↦ inl done
        | inr live ↦ inr (due_of a.inflight a.delays a refl refl live.waiting)
      ]
