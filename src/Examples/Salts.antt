-- ===== src/Examples/Salts.antt =====
-- The salting of load_generator/agentic_inference_strategy.py at concrete inputs.
use endpoints.Base.{ℕ, false, true, ◌≡◌, refl, Option, some, List, [], ◌∷◌, String}
use endpoints.Base.Dict.{lookup}
use endpoints.Core.Output.{text}
use endpoints.LoadGen.Trajectories.{ConversationTurn}
use endpoints.LoadGen.Salt.{
  ChatMessage, is_system, build_data_override, validate_salt_system_prompts,
}
use endpoints.LoadGen.Salt.Applies.{IsSalted, validate_salt_system_prompts-IsSalted}

abbrev user_message : ChatMessage
user_message = ("role", text "user") ∷ ("content", text "hello") ∷ []

abbrev system_message : ChatMessage
system_message = ("role", text "system") ∷ ("content", text "be brief") ∷ []

abbrev prebuilt : String → ℕ → Option (List ChatMessage)
prebuilt source turn = some (user_message ∷ system_message ∷ [])

abbrev turn_one : List ConversationTurn
turn_one = (4, 1) ∷ []

abbrev plain_salt : String → String
plain_salt s = s

valid : validate_salt_system_prompts prebuilt true (("a", turn_one) ∷ []) ≡ true
unfolding validate_salt_system_prompts is_system lookup
valid = refl

user_only :
    validate_salt_system_prompts (λ s t. some (user_message ∷ [])) true (("a", turn_one) ∷ [])
    ≡ false
unfolding validate_salt_system_prompts is_system lookup
user_only = refl

validate_salt_system_prompts-IsSalted_example :
    (out : List ChatMessage) × (build_data_override plain_salt true (prebuilt "a" 1) "a" 3
      ≡ some (some out))
    × IsSalted plain_salt "a" 3 (user_message ∷ system_message ∷ []) out
unfolding is_system lookup
validate_salt_system_prompts-IsSalted_example =
    validate_salt_system_prompts-IsSalted prebuilt plain_salt (("a", turn_one) ∷ []) 0 0 "a"
      turn_one (4, 1) (user_message ∷ system_message ∷ []) 3 valid refl refl refl
      ((λ e. ("hello", refl)), ((λ e. ("be brief", refl)), tt))
