-- ===== src/Core/Output.antt =====
-- core/types.py: the payloads of event records. Texts are strings; `Json` stands for a value whose
-- contents the modelled code never inspects.
pub mod Texts
pub mod Parts
pub mod Merging
pub mod Views
use Prim.Native.String.{◌++◌ as str_append}
use endpoints.Base.{
  ℕ, suc, Bool, true, false, ◌||◌, ◌&&◌, not, Option, none, some, List, [], ◌∷◌, ◌++◌, String,
  str_eq, ltb, ◌==◌, if◌then◌else◌, is_some,
}

mutual
  pub data Json : Type 0 where
    null : Json
    num : ℕ → Json
    text : String → Json
    arr : Items → Json
    obj : Fields → Json

  pub data Items : Type 0 where
    nil : Items
    cons : Json → Items → Items

  pub data Fields : Type 0 where
    end : Fields
    field : String → Json → Fields → Fields

-- One tool call, or one streamed part of it: the keys that `merge_tool_calls` reads. `index` is
-- `partial.get("index", 0)`; a missing text is `none`.
pub record ToolCall : Type 0 where
  pub index : ℕ
  pub id : Option String
  pub type : Option String
  pub name : Option String
  pub arguments : Option String

-- `tool_calls`: finished calls, or the chunks of a stream. The code looks at the first element only.
pub data ToolCalls : Type 0 where
  whole : List ToolCall → ToolCalls
  chunked : List (List ToolCall) → ToolCalls

-- `OUTPUT_ELEM_TYPE`: a string (non-streaming) or a tuple of strings (streaming).
pub data OutputElem : Type 0 where
  one : String → OutputElem
  chunks : List String → OutputElem

pub record TextModelOutput : Type 0 where
  pub output : OutputElem
  pub reasoning : Option OutputElem
  pub tool_calls : Option ToolCalls

pub record PromptData : Type 0 where
  pub text : Option String
  pub token_ids : Option (List ℕ)
  pub messages : Option (List Json)
  pub tools : Option (List Json)
  pub chat_template_kwargs : Option Json
  pub chat_template : Option String
  pub tool_choice : Option Json

pub record ErrorData : Type 0 where
  pub error_type : String
  pub error_message : String

-- Python's truth of a text, of an output element and of an optional one.
abbrev pub nonempty : String → Bool
nonempty s = not (str_eq s "")

abbrev pub truthy : OutputElem → Bool
truthy (one s) = nonempty s
truthy (chunks []) = false
truthy (chunks (_ ∷ _)) = true

abbrev pub truthy? : Option OutputElem → Bool
truthy? none = false
truthy? (some e) = truthy e

abbrev pub calls? : Option ToolCalls → Bool
calls? none = false
calls? (some (whole [])) = false
calls? (some (whole (_ ∷ _))) = true
calls? (some (chunked [])) = false
calls? (some (chunked (_ ∷ _))) = true

-- `"".join(parts)`
unfoldable pub join : List String → String
join [] = ""
join (s ∷ ss) = str_append s (join ss)

-- `if partial.get("id"): tool_call["id"] = partial["id"]`
take_text : Option String → Option String → Option String
take_text none old = old
take_text (some s) old = if nonempty s then some s else old

-- `tool_call["function"]["arguments"] += fn["arguments"]`
add_text : Option String → Option String → Option String
add_text none old = old
add_text (some s) none = some s
add_text (some s) (some old) = some (str_append old s)

merge_part : ToolCall → ToolCall → ToolCall
unfolding take_text add_text
merge_part p c = record c {
  id = take_text p.id c.id;
  type = take_text p.type c.type;
  name = take_text p.name c.name;
  arguments = add_text p.arguments c.arguments;
}

-- `{"type": "function", "function": {"arguments": ""}}`
abbrev fresh_call : ℕ → ToolCall
fresh_call i = record {
  index = i;
  id = none;
  type = some "function";
  name = none;
  arguments = some "";
}

-- `merged`, kept in the order of `sorted(merged)`.
pub merge_into : ToolCall → List ToolCall → List ToolCall
unfolding merge_part
merge_into p [] = merge_part p (fresh_call p.index) ∷ []
merge_into p (c ∷ cs) =
    if ltb p.index c.index
    then merge_part p (fresh_call p.index) ∷ c ∷ cs
    else if p.index == c.index
    then merge_part p c ∷ cs
    else c ∷ merge_into p cs

pub merge_chunk : List ToolCall → List ToolCall → List ToolCall
unfolding merge_into
merge_chunk [] acc = acc
merge_chunk (p ∷ ps) acc = merge_chunk ps (merge_into p acc)

pub merge_chunks : List (List ToolCall) → List ToolCall → List ToolCall
unfolding merge_chunk
merge_chunks [] acc = acc
merge_chunks (c ∷ cs) acc = merge_chunks cs (merge_chunk c acc)

unfoldable pub merge_tool_calls : Option ToolCalls → Option (List ToolCall)
unfolding merge_chunks
merge_tool_calls none = none
merge_tool_calls (some (whole [])) = none
merge_tool_calls (some (whole (c ∷ cs))) = some (c ∷ cs)
merge_tool_calls (some (chunked [])) = none
merge_tool_calls (some (chunked (c ∷ cs))) = some (merge_chunks (c ∷ cs) [])
