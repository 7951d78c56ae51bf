-- ===== src/LoadGen/Trajectories.antt =====
-- load_generator/agentic_inference_strategy.py: what the strategy is given, and the conversation
-- instances (trajectories) that it draws. `order` gives the draws of the sample order.
use Prim.Native.String.{◌++◌ as str_append}
use endpoints.Base.{
  ℕ, zero, suc, ◌+◌, ◌/◌, ◌%◌, Bool, Option, none, some, List, [], ◌∷◌, String, ◌==◌, ltb,
  if◌then◌else◌, length, get_elem?,
}
use endpoints.Base.Dict.{Dict}
use endpoints.Core.Output.{Json}

-- `ConversationTurn`: a sample's index and its turn
abbrev pub ConversationTurn : Type 0
ConversationTurn = ℕ × ℕ

-- What the constructor and `execute` are given. `order k` is the draw number `k` of the conversation
-- order, `delayed` says whether a turn has a delay (where delays are injected), and `data_override` is
-- `_build_data_override`: `none` is its exception. The timeout is its text.
pub record Plan : Type 0 where
  pub base_convs : List (String × List ConversationTurn)
  pub order : ℕ → Option ℕ
  pub num_trajectories_to_issue : Option ℕ
  pub target_concurrency : Option ℕ
  pub stop_issuing_on_first_user_complete : Bool
  pub turn_timeout_s : String
  pub delayed : String → ℕ → Bool
  pub data_override : String → ℕ → ℕ → Option (Option (Dict Json))

-- `str(n)`
abbrev pub digit_texts : List String
digit_texts = "0" ∷ "1" ∷ "2" ∷ "3" ∷ "4" ∷ "5" ∷ "6" ∷ "7" ∷ "8" ∷ "9" ∷ []

abbrev pub text_or_empty : Option String → String
text_or_empty none = ""
text_or_empty (some s) = s

abbrev pub digit : ℕ → String
digit n = text_or_empty (get_elem? digit_texts n)

unfoldable pub digits : ℕ → ℕ → String
digits zero n = ""
digits (suc fuel) n =
    let rest = digits fuel (n / 10) in
    if ltb n 10 then digit n else str_append rest (digit (n % 10))

unfoldable pub logical_id : String → ℕ → String
unfolding digits
logical_id source n =
    if n == 1 then source else str_append source (str_append "__repeat_" (digits (suc n) n))

abbrev pub trajectory_budget : Plan → ℕ
trajectory_budget plan = go plan.num_trajectories_to_issue
  where
    go : Option ℕ → ℕ
    go (some n) = n
    go none = length plan.base_convs

-- What `_next_conversation_instance` finds: its four parts, nothing, or an exception.
pub record Instance : Type 0 where
  pub logical_id : String
  pub source_id : String
  pub turns : List ConversationTurn
  pub repeat_id : ℕ

abbrev pub turns_of_instance : Option Instance → ℕ
turns_of_instance none = 0
turns_of_instance (some i) = length i.turns

module _ (plan : Plan) where
  -- the conversation of the draw number `k`
  abbrev pub named : ℕ → Option (String × List ConversationTurn) → Option Instance
  named k none = none
  named k (some (source, turns)) =
      let n = k / length plan.base_convs + 1 in
      some (record {
        logical_id = logical_id source n;
        source_id = source;
        turns = turns;
        repeat_id = n;
      })

  abbrev pub drawn : Option ℕ → Option (String × List ConversationTurn)
  drawn none = none
  drawn (some i) = get_elem? plan.base_convs i

  abbrev pub instance_at : ℕ → Option Instance
  instance_at k = named k (drawn (plan.order k))

  -- the turns of `n` draws from draw `k` on
  unfoldable pub planned_turns : ℕ → ℕ → ℕ
  unfolding logical_id
  planned_turns zero k = 0
  planned_turns (suc n) k = turns_of_instance (instance_at k) + planned_turns n (suc k)
