-- ===== src/LoadGen/Prompt.antt =====
-- load_generator/session.py: the prompt data of the ISSUED event, from the sample that is sent. Token
-- identifiers are arrays of numbers.
use endpoints.Base.{ℕ, Option, none, some, List, [], ◌∷◌, String}
use endpoints.Base.Dict.{Dict, lookup, insert}
use endpoints.Core.Output.{Json, null, num, text, arr, obj, Items, nil, cons, PromptData}

-- `{**data, **data_override}`
unfoldable pub merge_data : Dict Json → Dict Json → Dict Json
merge_data sample [] = sample
merge_data sample ((k, v) ∷ d) = merge_data (insert k v sample) d

-- `data.get(k)`, where a null is Python's None as a missing key is
abbrev pub get : String → Dict Json → Option Json
get k d = go (lookup k d)
  where
    go : Option Json → Option Json
    go (some null) = none
    go o = o

abbrev pub no_prompt : PromptData
no_prompt = record {
  text = none;
  token_ids = none;
  messages = none;
  tools = none;
  chat_template_kwargs = none;
  chat_template = none;
  tool_choice = none;
}

pub list_of : Items → List Json
list_of nil = []
list_of (cons j js) = j ∷ list_of js

pub ids_of : Items → List ℕ
ids_of nil = []
ids_of (cons (num n) js) = n ∷ ids_of js
ids_of (cons _ js) = ids_of js

pub token_list : Json → List ℕ
unfolding ids_of
token_list (arr js) = ids_of js
token_list _ = []

-- `isinstance(x, list | tuple)`, `isinstance(x, dict)`, `isinstance(x, str)`, `isinstance(x, str | dict)`
as_list : Option Json → Option (List Json)
unfolding list_of
as_list (some (arr js)) = some (list_of js)
as_list _ = none

as_dict : Option Json → Option Json
as_dict (some (obj f)) = some (obj f)
as_dict _ = none

as_str : Option Json → Option String
as_str (some (text s)) = some s
as_str _ = none

as_choice : Option Json → Option Json
as_choice (some (obj f)) = some (obj f)
as_choice (some (text s)) = some (text s)
as_choice _ = none

-- What the choice of the prompt data ends with: the data, the reason of a warning, or `ValueError`.
pub data PromptChoice : Type 0 where
  chosen : PromptData → PromptChoice
  unavailable : String → PromptChoice
  both_token_fields : PromptChoice

-- after the token fields and the messages
from_prompt : Option Json → PromptChoice
from_prompt (some (text s)) = chosen (record no_prompt { text = some s })
from_prompt (some (arr js)) = chosen no_prompt
from_prompt _ = unavailable "unsupported_mapping"

from_messages : Dict Json → Option Json → PromptChoice
unfolding as_list as_dict as_str as_choice from_prompt list_of
from_messages sample (some (arr (cons m ms))) = chosen (record no_prompt {
  messages = some (list_of (cons m ms));
  tools = as_list (get "tools" sample);
  chat_template_kwargs = as_dict (get "chat_template_kwargs" sample);
  chat_template = as_str (get "chat_template" sample);
  tool_choice = as_choice (get "tool_choice" sample);
})
from_messages sample _ = from_prompt (get "prompt" sample)

from_tokens : Dict Json → Option Json → Option Json → PromptChoice
unfolding from_messages token_list
from_tokens sample (some a) (some b) = both_token_fields
from_tokens sample (some a) none = chosen (record no_prompt { token_ids = some (token_list a) })
from_tokens sample none (some b) = chosen (record no_prompt { token_ids = some (token_list b) })
from_tokens sample none none = from_messages sample (get "messages" sample)

-- A sample that is not a mapping is `none`.
unfoldable pub choose_prompt : Option (Dict Json) → PromptChoice
unfolding from_tokens
choose_prompt none = unavailable "non_mapping"
choose_prompt (some sample) =
    from_tokens sample (get "input_tokens" sample) (get "token_ids" sample)
