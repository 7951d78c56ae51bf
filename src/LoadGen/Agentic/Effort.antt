-- ===== src/LoadGen/Agentic/Effort.antt =====
-- load_generator/agentic_inference_strategy.py: the work that is left to the strategy, as a number that
-- what happens makes smaller.
use mathlib.Core.Path.{subst}
use endpoints.Base.{
  ℕ, zero, suc, ◌+◌, ◌-◌, ◌*◌, ◌≤◌, ◌<◌, true, ◌≡◌, refl, sym, ap, ◌∙◌, Option, none, some, List,
  [], ◌∷◌, String, str_eq, if_both, if_false, if_true, length, get_elem?, arith, Bool-cases, inl,
  inr,
}
use endpoints.Base.Dict.{Dict, lookup, insert, erase, length-insert_le}
use endpoints.Core.Output.{Json}
use endpoints.LoadGen.Issuer.{Answer, refused, accepted, raised}
use endpoints.LoadGen.Trajectories.{
  ConversationTurn, Plan, Instance, planned_turns, turns_of_instance, trajectory_budget,
  instance_at,
}
use endpoints.LoadGen.Agentic.{
  Active, Issuer, Strategy, is_empty, signal_done_if_no_inflight, request_stop_issuing,
  stop_tracking, after_issue, issue_data, same_turn, issue_active, issue_turn_now,
}

abbrev value_or {ℓ} : {A : Type ℓ} → A → Option A → A
value_or a none = a
value_or a (some b) = b

-- the turns of the active conversations that have not been issued
abbrev pub unissued : Active → ℕ
unissued st = length st.turns - st.cursor

abbrev pub rest : Dict Active → ℕ
rest [] = 0
rest ((c, st) ∷ d) = unissued st + rest d

pub rest-erase : (c : String) (d : Dict Active) → rest (erase c d) ≤ rest d
unfolding erase
rest-erase c [] = omega arith
rest-erase c ((i, st) ∷ d) = ground (arith, rest-erase c d)

pub rest-insert :
    (c : String) (st : Active) (d : Dict Active) → rest (insert c st d) ≤ unissued st + rest d
unfolding insert
rest-insert c st [] = omega arith
rest-insert c st ((i, old) ∷ d) = ground (arith, rest-insert c st d)

-- the next turn of a conversation is issued
rest-issued :
    (c : String) (st : Active) (d : Dict Active)
    → lookup c d ≡ some st
    → st.cursor < length st.turns
    → suc (rest (insert c (record st { cursor = st.cursor + 1 }) d)) ≤ rest d
unfolding insert lookup
rest-issued c st [] e lt = absurd (cc)
rest-issued c st ((i, old) ∷ d) e lt = elim (Bool-cases (str_eq i c)) [
  | inl same ↦
      let is : old ≡ st = ap (value_or old) (sym (if_true _ _ _ same) ∙ e) in
      let same_left : unissued old ≡ unissued st = ap unissued is in
      subst (λ x. suc (rest x) ≤ unissued old + rest d) (sym (if_true _ _ _ same))
        (omega (arith, lt, same_left))
  | inr other ↦
      subst (λ x. suc (rest x) ≤ unissued old + rest d) (sym (if_false _ _ _ other))
        (omega (arith, rest-issued c st d (sym (if_false _ _ _ other) ∙ e) lt))
]

get_elem?-lt {ℓ} :
    {A : Type ℓ} (xs : List A) (i : ℕ) (x : A) → get_elem? xs i ≡ some x → i < length xs
get_elem?-lt [] i x e = absurd (cc)
get_elem?-lt (y ∷ xs) zero x e = omega arith
get_elem?-lt (y ∷ xs) (suc i) x e = omega (arith, get_elem?-lt xs i x e)

-- the turns of the trajectories that have not been started
abbrev pub unstarted : Plan → ℕ → ℕ
unstarted plan k = planned_turns plan (trajectory_budget plan - k) k

pub unstarted-next :
    (plan : Plan) (k : ℕ)
    → k < trajectory_budget plan
    → (i : Instance) → instance_at plan k ≡ some i
    → unstarted plan k ≡ length i.turns + unstarted plan (k + 1)
unfolding planned_turns
unstarted-next plan k lt i e =
    let one_less : trajectory_budget plan - k ≡ suc (trajectory_budget plan - (k + 1)) =
      omega arith in
    let next : suc k ≡ k + 1 = omega arith in
    ap (λ n. planned_turns plan n k) one_less
    ∙ ap (λ o. turns_of_instance o + planned_turns plan (trajectory_budget plan - (k + 1)) (suc k))
        e
    ∙ ap (λ j. length i.turns + planned_turns plan (trajectory_budget plan - (k + 1)) j) next

abbrev pub effort : {S : Type 0} → Plan → Strategy S → ℕ
effort plan a =
    3 * (unstarted plan a.started + rest a.active) + (2 * length a.inflight + length a.delays)

module _ (plan : Plan) {S : Type 0} (n : ℕ) where
  abbrev pub IsWithin : Strategy S → Type 0
  IsWithin a = effort plan a ≤ n

  pub signal-IsWithin : (a : Strategy S) → IsWithin a → IsWithin (signal_done_if_no_inflight a)
  signal-IsWithin a h = if_both IsWithin (is_empty a.inflight) (λ _. h) (λ _. h)

  pub request-IsWithin : (a : Strategy S) → IsWithin a → IsWithin (request_stop_issuing a)
  unfolding request_stop_issuing
  request-IsWithin a h =
      signal-IsWithin _ (if_both IsWithin a.stopping (λ _. h) (λ _. omega (arith, h)))

module _ (plan : Plan) {S : Type 0} (ops : Issuer S) (n : ℕ) where
  pub tracking-IsWithin :
      (a : Strategy S) → IsWithin plan n a → IsWithin plan n (stop_tracking ops a)
  unfolding stop_tracking
  tracking-IsWithin a h = if_both (IsWithin plan n) a.tracking_stopped (λ _. h) (λ _. h)

  issue_active-IsWithin :
      (conv : String) (t : ConversationTurn) (o : Option Active) (a : Strategy S)
      → lookup conv a.active ≡ o
      → IsWithin plan n a
      → IsWithin plan n (issue_active plan ops conv t o a)
  issue_active-IsWithin conv t none a e h = h
  issue_active-IsWithin conv t (some st) a e h =
      if_both (IsWithin plan n) (same_turn t (get_elem? st.turns st.cursor))
        (λ same.
          data-IsWithin (same_turn-lt (get_elem? st.turns st.cursor) refl same)
            (plan.data_override st.source_id t.1 st.repeat_id))
        (λ _. h)
    where
      same_turn-lt :
          (o : Option ConversationTurn)
          → get_elem? st.turns st.cursor ≡ o
          → same_turn t o ≡ true
          → st.cursor < length st.turns
      same_turn-lt none e same = absurd (cc)
      same_turn-lt (some u) e same = get_elem?-lt st.turns st.cursor u e

      answer-IsWithin :
          st.cursor < length st.turns → (r : Answer × S) → IsWithin plan n (after_issue conv st r a)
      answer-IsWithin lt (refused, s) = request-IsWithin plan n (record a { issuer = s }) h
      answer-IsWithin lt (raised, s) = h
      answer-IsWithin lt (accepted q, s) =
          omega (arith, h, rest-issued conv st a.active e lt, length-insert_le q conv a.inflight)

      data-IsWithin :
          st.cursor < length st.turns
          → (o : Option (Option (Dict Json))) → IsWithin plan n (issue_data ops conv t st o a)
      data-IsWithin lt none = h
      data-IsWithin lt (some o) = answer-IsWithin lt (ops.issue t conv o a.issuer)

  pub issue_turn_now-IsWithin :
      (conv : String) (t : ConversationTurn) (a : Strategy S)
      → IsWithin plan n (record a { delays = erase conv a.delays })
      → IsWithin plan n (issue_turn_now plan ops conv t a)
  unfolding issue_turn_now
  issue_turn_now-IsWithin conv t a h =
      let b = record a { delays = erase conv a.delays } in
      if_both (IsWithin plan n) a.stopping (λ _. h)
        (λ _. issue_active-IsWithin conv t (lookup conv a.active) b refl h)
