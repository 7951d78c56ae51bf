-- ===== src/LoadGen/Conversation/Turns.antt =====
-- load_generator/conversation_manager.py: the turns counted are the responses, conversation by
-- conversation.
use mathlib.Core.Path.{subst}
use endpoints.Base.{
  ℕ, ◌+◌, Bool, true, false, ◌&&◌, ◌≡◌, refl, sym, ◌∙◌, ap, Option, none, some, List, [], ◌∷◌,
  String, str_eq, eq_iff, if◌then◌else◌, if_true, if_false, is_some, arith, Bool-cases,
  Option-cases, inl, inr,
}
use endpoints.Base.Dict.{lookup, insert, contains, lookup-insert, contains-insert}
use endpoints.LoadGen.Conversation.{
  ConversationState, Conversations, count_turn, mark_turn, mark_all, and_then,
}

-- The responses of one conversation, and those that failed.
abbrev pub turns_of : String → List (String × Bool) → ℕ
turns_of id [] = 0
turns_of id ((j, failed) ∷ ts) = if str_eq j id then turns_of id ts + 1 else turns_of id ts

abbrev pub failures_of : String → List (String × Bool) → ℕ
failures_of id [] = 0
failures_of id ((j, failed) ∷ ts) =
    if str_eq j id && failed then failures_of id ts + 1 else failures_of id ts

-- The state of a conversation after `n` more turns of which `f` failed.
pub record IsLater (s t : ConversationState) (n f : ℕ) : Type 0 where
  pub completed : t.completed_turns ≡ s.completed_turns + n
  pub failed : t.failed_turns ≡ s.failed_turns + f
  pub same_id : t.conversation_id ≡ s.conversation_id
  pub same_expected : t.expected_client_turns ≡ s.expected_client_turns

-- Whether every response is of a conversation that exists.
abbrev pub known : List (String × Bool) → Conversations → Bool
known [] m = true
known ((id, failed) ∷ ts) m = contains id m && known ts m

absurd_Bool : {b : Bool} → b ≡ true → b ≡ false → ⊥
absurd_Bool p q = absurd (cc)

abbrev value_or {ℓ} : {A : Type ℓ} → A → Option A → A
value_or a none = a
value_or a (some b) = b

both_true : {a b : Bool} → (a && b) ≡ true → (a ≡ true) × (b ≡ true)
both_true h = ground arith

same_text : (j id : String) → str_eq j id ≡ true → j ≡ id
same_text j id h = ground (arith, eq_iff j id)

IsLater-refl : (s : ConversationState) → IsLater s s 0 0
IsLater-refl s = record {
  completed = omega arith;
  failed = omega arith;
  same_id = refl;
  same_expected = refl;
}

-- The counts of a list from those of its rest.
counted :
    {s t : ConversationState} (n f : ℕ) (here failed : Bool)
    → IsLater s t (n + (if here then 1 else 0)) (f + (if here && failed then 1 else 0))
    → IsLater s t (if here then n + 1 else n) (if here && failed then f + 1 else f)
counted n f true true h = h
counted n f true false h = record {
  completed = h.completed;
  failed = omega (arith, h.failed);
  same_id = h.same_id;
  same_expected = h.same_expected;
}
counted n f false b h = record {
  completed = omega (arith, h.completed);
  failed = omega (arith, h.failed);
  same_id = h.same_id;
  same_expected = h.same_expected;
}

count_turn-IsLater :
    (b : Bool) (s : ConversationState) → IsLater s (count_turn b s) 1 (if b then 1 else 0)
count_turn-IsLater true s = record {
  completed = refl;
  failed = refl;
  same_id = refl;
  same_expected = refl;
}
count_turn-IsLater false s = record {
  completed = refl;
  failed = omega arith;
  same_id = refl;
  same_expected = refl;
}

IsLater-trans :
    {s t u : ConversationState} {n f m g : ℕ}
    → IsLater s t n f
    → IsLater t u m g
    → IsLater s u (m + n) (g + f)
IsLater-trans p q = record {
  completed = omega (arith, p.completed, q.completed);
  failed = omega (arith, p.failed, q.failed);
  same_id = q.same_id ∙ p.same_id;
  same_expected = q.same_expected ∙ p.same_expected;
}

-- A turn of a conversation that exists is counted, and for that conversation only.
mark_turn-IsLater :
    (b : Bool) (j id : String) (m : Conversations) (s : ConversationState)
    → lookup id m ≡ some s
    → contains j m ≡ true
    → let here = str_eq j id in
      (n : Conversations) × (t : ConversationState) × (mark_turn b j m ≡ some n)
      × (lookup id n ≡ some t)
      × IsLater s t (if here then 1 else 0) (if here && b then 1 else 0)
      × ((k : String) → contains k m ≡ true → contains k n ≡ true)
unfolding mark_turn
mark_turn-IsLater b j id m s e there = elim (Option-cases (lookup j m)) [
  | inl absent ↦ absurd (absurd_Bool there (ap is_some absent))
  | inr (r, found) ↦
      let v = count_turn b r in
      let n = insert j v m in
      let keep = λ (k : String) (h : contains k m ≡ true). contains-insert j k v m h in
      elim (Bool-cases (str_eq j id)) [
        | inl same ↦
            let one : r ≡ s =
              ap (value_or s) (sym found ∙ ap (λ i. lookup i m) (same_text j id same) ∙ e) in
            (
              n,
              v,
              rw found refl,
              lookup-insert j id v m ∙ if_true _ _ _ same,
              subst
                  (λ q.
                    IsLater q v (if str_eq j id then 1 else 0) (if str_eq j id && b then 1 else 0))
                  one (rw same (count_turn-IsLater b r)),
              keep,
            )
        | inr other ↦ (
          n,
          s,
          rw found refl,
          lookup-insert j id v m ∙ if_false _ _ _ other ∙ e,
          rw other (IsLater-refl s),
          keep,
        )
      ]
]

known-keeps :
    (ts : List (String × Bool)) (m n : Conversations)
    → ((k : String) → contains k m ≡ true → contains k n ≡ true)
    → known ts m ≡ true
    → known ts n ≡ true
known-keeps [] m n keep h = refl
known-keeps ((id, b) ∷ ts) m n keep h =
    let (first, rest) = both_true h in rw (keep id first) (known-keeps ts m n keep rest)

-- Where every response belongs to a conversation that exists, marking them in any order succeeds, and each conversation's counts grow by exactly its responses and by those of them that failed, its other fields unchanged.
pub mark_all-IsLater :
    (ts : List (String × Bool)) (id : String) (m : Conversations) (s : ConversationState)
    → known ts m ≡ true
    → lookup id m ≡ some s
    → (n : Conversations) × (t : ConversationState) × (mark_all ts m ≡ some n)
      × (lookup id n ≡ some t)
      × IsLater s t (turns_of id ts) (failures_of id ts)
unfolding mark_all
mark_all-IsLater [] id m s h e = (m, s, refl, e, IsLater-refl s)
mark_all-IsLater ((j, b) ∷ ts) id m s h e =
    let (first, rest) = both_true h in
    let (n, t, marked, found, later, keep) = mark_turn-IsLater b j id m s e first in
    let (n', t', all, found', later') =
      mark_all-IsLater ts id n t (known-keeps ts m n keep rest) found in
    (
      n',
      t',
      ap (λ o. and_then o (λ x. mark_all ts x)) marked ∙ all,
      found',
      counted (turns_of id ts) (failures_of id ts) (str_eq j id) b (IsLater-trans later later'),
    )
