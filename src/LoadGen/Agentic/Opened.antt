-- ===== src/LoadGen/Agentic/Opened.antt =====
-- load_generator/agentic_inference_strategy.py: `_start_conversation` enters a new trajectory among the active
-- conversations.
use mathlib.Core.Path.{subst}
use endpoints.Base.{
  ℕ, ◌+◌, ◌<◌, ◌≤◌, true, false, ◌≡◌, refl, ap, ◌∙◌, inl, inr, Option, some, String, str_eq,
  eq_refl, ltb, ltb→lt, ltb→le, if_true, if_false, get_elem?, length, is_some, arith, Bool-cases,
  Option-cases,
}
use endpoints.Base.Dict.{Dict, lookup, insert, contains, lookup-insert, contains-insert}
use endpoints.Base.Tally.{one_if, keys, keys-insert, keys-found, found-keys, same_text}
use endpoints.LoadGen.Conversation.{Conversations, fresh_state, get_or_create}
use endpoints.LoadGen.Trajectories.{
  ConversationTurn, Plan, Instance, instance_at, trajectory_budget,
}
use endpoints.LoadGen.Agentic.{Active, Issuer, Strategy}
use endpoints.LoadGen.Agentic.Linked.{GivesFresh, Linked, at, nowhere, Ready}
use endpoints.LoadGen.Agentic.Issued.{both_ways}

-- The logical identifiers of the trajectories differ.
abbrev pub AreDistinct : Plan → Type 0
AreDistinct plan =
    (j k : ℕ)
    → j < k
    → k < trajectory_budget plan
    → (x y : Instance) → instance_at plan j ≡ some x
    → instance_at plan k ≡ some y
    → ¬ (x.logical_id ≡ y.logical_id)

pub get_or_create-kept :
    (id c : String) (o : Option ℕ) (m : Conversations)
    → contains c m ≡ true
    → contains c (get_or_create id o m).1 ≡ true
unfolding get_or_create
get_or_create-kept id c o m h = elim (Option-cases (lookup id m)) [
  | inl absent ↦ rw absent (contains-insert id c (fresh_state id o) m h)
  | inr (s, found) ↦ rw found h
]

pub get_or_create-there :
    (id : String) (o : Option ℕ) (m : Conversations) → contains id (get_or_create id o m).1 ≡ true
unfolding get_or_create
get_or_create-there id o m = elim (Option-cases (lookup id m)) [
  | inl absent ↦
      rw absent (ap is_some (lookup-insert id id (fresh_state id o) m ∙ if_true _ _ _ (eq_refl id)))
  | inr (s, found) ↦ rw found (ap is_some found)
]

-- The conversation `id`, which has no entry, gets the entry `st`.
module _ (id : String) (st : Active) (d : Dict Active) (new : contains id d ≡ false) where
  no_keys : keys id d ≡ 0
  no_keys = elim (Bool-cases (ltb 0 (keys id d))) [
    | inl some_key ↦ absurd (both_ways (found-keys id d (ltb→lt _ _ some_key)) new)
    | inr none_there ↦ omega (arith, ltb→le _ _ none_there)
  ]

  no_keys_at : (c : String) → str_eq id c ≡ true → keys c d ≡ 0
  no_keys_at c same = subst (λ x. keys x d ≡ 0) (same_text id c same) no_keys

  more_keys : (c : String) → keys c (insert id st d) ≡ keys c d + at id c
  more_keys c = keys-insert c id st d new

  opened-single : ((c : String) → keys c d ≤ 1) → (c : String) → keys c (insert id st d) ≤ 1
  opened-single single c = elim (Bool-cases (str_eq id c)) [
    | inl same ↦ let one = ap one_if same in omega (arith, more_keys c, no_keys_at c same, one)
    | inr other ↦ let zero = ap one_if other in omega (arith, more_keys c, single c, zero)
  ]

  -- a conversation that was there or is the new one
  old_key : (c : String) → str_eq id c ≡ false → 0 < keys c (insert id st d) → 0 < keys c d
  old_key c other p = let zero = ap one_if other in omega (arith, p, more_keys c, zero)

  module _ (plan : Plan) (delays : Dict ConversationTurn) (inflight : Dict String) (started : ℕ)
      (known : Conversations) (l : Linked plan nowhere delays inflight d started known) where
    undelayed_new : (c : String) → str_eq id c ≡ true → ¬ (0 < keys c delays)
    undelayed_new c same k = omega (arith, l.balanced c, k, no_keys_at c same)

    opened-due :
        (c : String) (t : ConversationTurn)
        → lookup c delays ≡ some t
        → (s : Active) × (lookup c (insert id st d) ≡ some s)
          × (get_elem? s.turns s.cursor ≡ some t)
    opened-due c t due = elim (Bool-cases (str_eq id c)) [
      | inl same ↦ absurd (undelayed_new c same (keys-found c t delays due))
      | inr other ↦
          let (old, found, turn) = l.due c t due in
          (old, lookup-insert id c st d ∙ if_false _ _ _ other ∙ found, turn)
    ]

    opened-drawn :
        (i : Instance)
        → instance_at plan started ≡ some i
        → i.logical_id ≡ id
        → (c : String) → 0 < keys c (insert id st d)
        → (k : ℕ) × (j : Instance) × (k < started + 1)
          × (instance_at plan k ≡ some j)
          × (j.logical_id ≡ c)
    opened-drawn i this named c p = elim (Bool-cases (str_eq id c)) [
      | inl same ↦ (started, i, omega arith, this, named ∙ same_text id c same)
      | inr other ↦
          let (k, j, earlier, that, its) = l.drawn c (old_key c other p) in
          (k, j, omega (arith, earlier), that, its)
    ]

    opened-met :
        (o : Option ℕ) (c : String)
        → 0 < keys c (insert id st d)
        → contains c (get_or_create id o known).1 ≡ true
    opened-met o c p = elim (Bool-cases (str_eq id c)) [
      | inl same ↦
          subst (λ x. contains x (get_or_create id o known).1 ≡ true) (same_text id c same)
            (get_or_create-there id o known)
      | inr other ↦ get_or_create-kept id c o known (l.met c (old_key c other p))
    ]

    opened-Linked :
        (i : Instance)
        → instance_at plan started ≡ some i
        → i.logical_id ≡ id
        → (o : Option ℕ)
        → Linked plan
            (at id)
            delays
            inflight
            (insert id st d)
            (started + 1)
            (get_or_create id o known).1
    opened-Linked i this named o = record {
      balanced = λ c. omega (arith, l.balanced c, more_keys c);
      single = opened-single l.single;
      due = opened-due;
      drawn = opened-drawn i this named;
      met = opened-met o;
    }

module _ (plan : Plan) {S : Type 0} {ops : Issuer S} (laws : GivesFresh ops)
    (distinct : AreDistinct plan) where
  -- a trajectory's first entry in the active conversations
  abbrev pub opened : Instance → Strategy S → Strategy S
  opened i a = record a {
    started = a.started + 1;
    conversations = (get_or_create i.logical_id (some (length i.turns)) a.conversations).1;
    active =
        insert i.logical_id
          (record { source_id = i.source_id; turns = i.turns; cursor = 0; repeat_id = i.repeat_id })
          a.active;
  }

  module _ (i : Instance) (a : Strategy S) (h : Ready plan laws nowhere a)
      (running : a.stopping ≡ false) (this : instance_at plan a.started ≡ some i)
      (more : a.started < trajectory_budget plan) where
    new_conversation : contains i.logical_id a.active ≡ false
    new_conversation = elim (Option-cases (lookup i.logical_id a.active)) [
      | inl absent ↦ ap is_some absent
      | inr (st, found) ↦
          let (k, j, earlier, that, same) =
            (h.linked running).drawn i.logical_id (keys-found i.logical_id st a.active found) in
          absurd (distinct k a.started earlier more j i that this same)
    ]

    pub opened-Ready : Ready plan laws (at i.logical_id) (opened i a)
    opened-Ready = record {
      linked = λ _.
          opened-Linked i.logical_id
            (record {
              source_id = i.source_id;
              turns = i.turns;
              cursor = 0;
              repeat_id = i.repeat_id;
            })
            a.active new_conversation plan a.delays a.inflight a.started a.conversations
            (h.linked running) i this refl (some (length i.turns));
      budgeted = omega (arith, more);
      idle = h.idle;
      known = λ c p.
          get_or_create-kept i.logical_id c (some (length i.turns)) a.conversations (h.known c p);
      taken = h.taken;
    }
