-- ===== src/LoadGen/Conversation.antt =====
-- load_generator/conversation_manager.py: the states of conversations, by their identifiers.
pub mod Turns
use endpoints.Base.{
  ℕ, ◌+◌, Bool, true, false, Option, none, some, List, [], ◌∷◌, String, leb, if◌then◌else◌, is_some,
}
use endpoints.Base.Dict.{Dict, lookup, insert}

pub record ConversationState : Type 0 where
  pub conversation_id : String
  pub completed_turns : ℕ
  pub failed_turns : ℕ
  pub expected_client_turns : Option ℕ

abbrev pub Conversations : Type 0
Conversations = Dict ConversationState

unfoldable pub is_complete : ConversationState → Bool
is_complete s = go s.expected_client_turns
  where
    go : Option ℕ → Bool
    go none = false
    go (some n) = leb n s.completed_turns

abbrev pub fresh_state : String → Option ℕ → ConversationState
fresh_state id expected = record {
  conversation_id = id;
  completed_turns = 0;
  failed_turns = 0;
  expected_client_turns = expected;
}

-- `get_or_create`: the state, and the manager after it
unfoldable pub get_or_create : String → Option ℕ → Conversations → ConversationState × Conversations
get_or_create id expected m = go (lookup id m)
  where
    go : Option ConversationState → ConversationState × Conversations
    go (some s) = (s, m)
    go none = (fresh_state id expected, insert id (fresh_state id expected) m)

abbrev pub count_turn : Bool → ConversationState → ConversationState
count_turn failed s = record s {
  completed_turns = s.completed_turns + 1;
  failed_turns = if failed then s.failed_turns + 1 else s.failed_turns;
}

-- `mark_turn_complete` and `mark_turn_failed`; `none` is `KeyError`
unfoldable pub mark_turn : Bool → String → Conversations → Option Conversations
mark_turn failed id m = marked (lookup id m)
  where
    marked : Option ConversationState → Option Conversations
    marked none = none
    marked (some s) = some (insert id (count_turn failed s) m)

abbrev pub mark_turn_complete : String → Conversations → Option Conversations
mark_turn_complete = mark_turn false

abbrev pub mark_turn_failed : String → Conversations → Option Conversations
mark_turn_failed = mark_turn true

abbrev pub and_then {ℓ κ} : {A : Type ℓ} {B : Type κ} → Option A → (A → Option B) → Option B
and_then none f = none
and_then (some a) f = f a

-- a sequence of responses, as (conversation, whether it failed)
unfoldable pub mark_all : List (String × Bool) → Conversations → Option Conversations
mark_all [] m = some m
mark_all ((id, failed) ∷ ts) m = and_then (mark_turn failed id m) (λ n. mark_all ts n)
