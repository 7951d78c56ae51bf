-- ===== src/LoadGen/Salt/Applies.antt =====
-- load_generator/agentic_inference_strategy.py: what the validation before a run promises for its turns.
use endpoints.Base.{
  ℕ, zero, suc, Bool, true, false, ◌&&◌, ◌||◌, ◌≡◌, refl, sym, ap, ◌∙◌, Option, none, some, List,
  [], ◌∷◌, ◌++◌, String, if_true, if_false, Bool-cases, inl, inr, get_elem?, arith,
}
use endpoints.Base.Dict.{lookup, insert}
use endpoints.Core.Output.{join, text}
use endpoints.LoadGen.Trajectories.{digits, ConversationTurn}
use endpoints.LoadGen.Salt.{
  ChatMessage, is_system, as_text, salted_text, kept, salted_message, messages_with_trajectory_salt,
  replaced, salted_of, build_data_override, any_system, has_prompt, turns_valid, convs_valid,
  validate_salt_system_prompts,
}

-- The contents of the system messages are texts.
abbrev pub AreTexts : List ChatMessage → Type 0
AreTexts [] = Unit {0}
AreTexts (m ∷ ms) =
    (is_system m ≡ true → (c : String) × (as_text (lookup "content" m) ≡ some c)) × AreTexts ms

-- `out` is `ms` but for the content `c` of its first system message, which is salted.
pub record IsSalted (salt : String → String) (source : String) (repeat : ℕ)
    (ms out : List ChatMessage) : Type 0 where
  pub before : List ChatMessage
  pub system : ChatMessage
  pub after : List ChatMessage
  pub content : String
  pub wrapped : String
  pub parts : ms ≡ before ++ system ∷ after
  pub result : out ≡ before ++ insert "content" (text wrapped) system ∷ after
  -- the salt of the repetition, the content, and the salt of the conversation
  pub salts :
      wrapped
      ≡ join (
          "[salt: "
          ∷ salt (digits (suc repeat) repeat)
          ∷ "]\n\n"
          ∷ content
          ∷ "\n\n[salt: "
          ∷ salt source
          ∷ "]"
          ∷ [])
  pub is_first : any_system before ≡ false
  pub role : is_system system ≡ true
  pub had : as_text (lookup "content" system) ≡ some content

abbrev value_or {ℓ} : {A : Type ℓ} → A → Option A → A
value_or a none = a
value_or a (some b) = b

both_true : {a b : Bool} → (a && b) ≡ true → (a ≡ true) × (b ≡ true)
both_true h = ground arith

module _ (salt : String → String) (source : String) (repeat : ℕ) where
  salted_text-parts :
      (c : String)
      → salted_text salt source repeat c
        ≡ join (
            "[salt: "
            ∷ salt (digits (suc repeat) repeat)
            ∷ "]\n\n"
            ∷ c
            ∷ "\n\n[salt: "
            ∷ salt source
            ∷ "]"
            ∷ [])
  unfolding salted_text join
  salted_text-parts c = refl

  salted :
      (ms : List ChatMessage)
      → any_system ms ≡ true
      → AreTexts ms
      → (out : List ChatMessage) × (messages_with_trajectory_salt salt source repeat ms ≡ some out)
        × IsSalted salt source repeat ms out
  unfolding messages_with_trajectory_salt
  salted [] some_system h = absurd (cc)
  salted (m ∷ ms) some_system h = elim (Bool-cases (is_system m)) [
    | inl here ↦
        let (c, had) = h.0 here in
        let rest = messages_with_trajectory_salt salt source repeat ms in
        (
          insert "content" (text (salted_text salt source repeat c)) m ∷ ms,
          if_true _ _ _ here ∙ ap (λ o. salted_message salt source repeat m o ms rest) had,
          record {
            before = [];
            system = m;
            after = ms;
            content = c;
            wrapped = salted_text salt source repeat c;
            salts = salted_text-parts c;
            parts = refl;
            result = refl;
            is_first = refl;
            role = here;
            had = had;
          },
        )
    | inr other ↦
        let (out, made, s) =
          salted ms (sym (ap (λ b. b || any_system ms) other) ∙ some_system) h.1 in
        (
          m ∷ out,
          if_false _ _ _ other ∙ ap (kept salt m) made,
          record {
            before = m ∷ s.before;
            system = s.system;
            after = s.after;
            content = s.content;
            wrapped = s.wrapped;
            salts = s.salts;
            parts = ap (λ l. m ∷ l) s.parts;
            result = ap (λ l. m ∷ l) s.result;
            is_first = ap (λ b. b || any_system s.before) other ∙ s.is_first;
            role = s.role;
            had = s.had;
          },
        )
  ]

turn-valid :
    (messages : String → ℕ → Option (List ChatMessage)) (source : String)
    (ts : List ConversationTurn) (i : ℕ) (t : ConversationTurn)
    → turns_valid messages source ts ≡ true
    → get_elem? ts i ≡ some t
    → has_prompt (messages source t.1) ≡ true
turn-valid messages source [] i t h e = absurd (cc)
turn-valid messages source (u ∷ ts) zero t h e =
    let same : u ≡ t = ap (value_or u) e in
    ap (λ (x : ConversationTurn). has_prompt (messages source x.1)) (sym same) ∙ (both_true h).0
turn-valid messages source (u ∷ ts) (suc i) t h e =
    turn-valid messages source ts i t (both_true h).1 e

conv-valid :
    (messages : String → ℕ → Option (List ChatMessage)) (cs : List (String × List ConversationTurn))
    (i : ℕ) (source : String) (ts : List ConversationTurn)
    → convs_valid messages cs ≡ true
    → get_elem? cs i ≡ some (source, ts)
    → turns_valid messages source ts ≡ true
conv-valid messages [] i source ts h e = absurd (cc)
conv-valid messages ((s, us) ∷ cs) zero source ts h e =
    let same : (s, us) ≡ (source, ts) = ap (value_or (s, us)) e in
    ap (λ (x : String × List ConversationTurn). turns_valid messages x.0 x.1) (sym same)
    ∙ (both_true h).0
conv-valid messages (c ∷ cs) (suc i) source ts h e =
    conv-valid messages cs i source ts (both_true h).1 e

-- If the validation before the run passes, and the system messages of a turn have texts, then building the
-- override of that turn succeeds in each of its repetitions: all messages are kept, but for the first
-- system message, whose content is put between the salt of the repetition and that of the conversation.
pub validate_salt_system_prompts-IsSalted :
    (messages : String → ℕ → Option (List ChatMessage)) (salt : String → String)
    (convs : List (String × List ConversationTurn)) (i j : ℕ) (source : String)
    (turns : List ConversationTurn) (t : ConversationTurn) (ms : List ChatMessage) (repeat : ℕ)
    → validate_salt_system_prompts messages true convs ≡ true
    → get_elem? convs i ≡ some (source, turns)
    → get_elem? turns j ≡ some t
    → messages source t.1 ≡ some ms
    → AreTexts ms
    → (out : List ChatMessage) × (build_data_override salt true (messages source t.1) source repeat
        ≡ some (some out))
      × IsSalted salt source repeat ms out
unfolding validate_salt_system_prompts build_data_override
validate_salt_system_prompts-IsSalted messages salt convs i j source turns t ms repeat valid conv
      turn found texts =
    let h =
      turn-valid messages source turns j t (conv-valid messages convs i source turns valid conv)
        turn in
    let (out, made, s) = salted salt source repeat ms (sym (ap has_prompt found) ∙ h) texts in
    (
      out,
      ap (salted_of salt source repeat) found
          ∙ given ms (sym (ap has_prompt found) ∙ h)
          ∙ ap (replaced salt) made,
      s,
    )
  where
    given :
        (ms : List ChatMessage)
        → any_system ms ≡ true
        → salted_of salt source repeat (some ms)
          ≡ replaced salt (messages_with_trajectory_salt salt source repeat ms)
    given [] h = absurd (cc)
    given (m ∷ ms) h = refl
