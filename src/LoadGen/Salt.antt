-- ===== src/LoadGen/Salt.antt =====
-- load_generator/agentic_inference_strategy.py: the salting of messages. `salt` is the hash of a text;
-- `str` of a number is that of Trajectories.
pub mod Applies
use Prim.Native.String.{◌++◌ as str_append}
use endpoints.Base.{
  ℕ, suc, Bool, true, false, ◌&&◌, ◌||◌, not, Option, none, some, List, [], ◌∷◌, String, str_eq,
  if◌then◌else◌,
}
use endpoints.Base.Dict.{Dict, lookup, insert}
use endpoints.Core.Output.{Json, text}
use endpoints.LoadGen.Trajectories.{ConversationTurn, digits}

abbrev pub ChatMessage : Type 0
ChatMessage = Dict Json

-- `message.get("role") == "system"`
abbrev pub says_system : Option Json → Bool
says_system (some (text s)) = str_eq s "system"
says_system _ = false

unfoldable pub is_system : ChatMessage → Bool
is_system m = says_system (lookup "role" m)

-- a content that is a text
abbrev pub as_text : Option Json → Option String
as_text (some (text s)) = some s
as_text _ = none

module _ (salt : String → String) where
  unfoldable pub salted_text : String → ℕ → String → String
  unfolding digits
  salted_text source repeat content = str_append "[salt: " (
      str_append (salt (digits (suc repeat) repeat)) (
        str_append "]\n\n"
          (str_append content (str_append "\n\n[salt: " (str_append (salt source) "]")))))

  abbrev pub kept : ChatMessage → Option (List ChatMessage) → Option (List ChatMessage)
  kept m none = none
  kept m (some ms) = some (m ∷ ms)

  abbrev pub salted_message :
      String
      → ℕ
      → ChatMessage
      → Option String
      → List ChatMessage
      → Option (List ChatMessage)
      → Option (List ChatMessage)
  salted_message source repeat m none ms rest = kept m rest
  salted_message source repeat m (some c) ms rest =
      some (insert "content" (text (salted_text source repeat c)) m ∷ ms)

  -- `_messages_with_trajectory_salt`; `none` is `InputValidationError`
  unfoldable pub messages_with_trajectory_salt :
      String → ℕ → List ChatMessage → Option (List ChatMessage)
  unfolding is_system salted_text
  messages_with_trajectory_salt source repeat [] = none
  messages_with_trajectory_salt source repeat (m ∷ ms) =
      let rest = messages_with_trajectory_salt source repeat ms in
      if is_system m
      then salted_message source repeat m (as_text (lookup "content" m)) ms rest
      else kept m rest

  -- `_build_data_override`: the messages that replace the sample's (its token fields become None); the
  -- outer `none` is `InputValidationError`
  abbrev pub replaced : Option (List ChatMessage) → Option (Option (List ChatMessage))
  replaced none = none
  replaced (some ms) = some (some ms)

  abbrev pub salted_of : String → ℕ → Option (List ChatMessage) → Option (Option (List ChatMessage))
  salted_of source repeat none = none
  salted_of source repeat (some []) = none
  salted_of source repeat (some (m ∷ ms)) =
      replaced (messages_with_trajectory_salt source repeat (m ∷ ms))

  unfoldable pub build_data_override :
      Bool → Option (List ChatMessage) → String → ℕ → Option (Option (List ChatMessage))
  unfolding messages_with_trajectory_salt
  build_data_override enable_salt messages source repeat =
      if enable_salt then salted_of source repeat messages else some none

-- `_validate_salt_system_prompts`, over the messages of each turn; false is `InputValidationError`
abbrev pub any_system : List ChatMessage → Bool
any_system [] = false
any_system (m ∷ ms) = is_system m || any_system ms

abbrev pub has_prompt : Option (List ChatMessage) → Bool
has_prompt none = false
has_prompt (some ms) = any_system ms

module _ (messages : String → ℕ → Option (List ChatMessage)) where
  abbrev pub turns_valid : String → List ConversationTurn → Bool
  turns_valid source [] = true
  turns_valid source (t ∷ ts) = has_prompt (messages source t.1) && turns_valid source ts

  abbrev pub convs_valid : List (String × List ConversationTurn) → Bool
  convs_valid [] = true
  convs_valid ((source, turns) ∷ cs) = turns_valid source turns && convs_valid cs

  unfoldable pub validate_salt_system_prompts : Bool → List (String × List ConversationTurn) → Bool
  unfolding is_system
  validate_salt_system_prompts enable_salt convs = if enable_salt then convs_valid convs else true
