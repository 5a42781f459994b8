-- ===== src/Request.antt =====
-- go/request.go: an OpenAI chat request becomes the gateway's messages and tools. A message part is a
-- constructor in place of the map that is encoded for it; a Go map of decoded JSON is its fields.
pub mod Content
pub mod Convert
pub mod Tools
pub mod Envelope
pub mod Parts
pub mod Names
pub mod Answers
mod Tests
use cmdcode_go.Base.{
  ℕ, suc, String, ◌==◌, ◌^^◌, ◌≡◌, Bool, true, false, not, ◌&&◌, ◌||◌, Option, none, some, List, [],
  ◌∷◌, ◌++◌, if◌then◌else◌, trim_space, is_empty, has_prefix, drop_chars, GoMap, eqb,
}
use cmdcode_go.Wire.{
  Value, Values, Fields, null, bool, int, frac, str, arr, obj, nil, cons, end, field, get_field,
}

pub record ToolCall : Type 0 where
  pub id : String
  pub name : String
  pub arguments : String

pub record ChatMessage : Type 0 where
  pub role : String
  pub content : Value
  pub tool_calls : List ToolCall
  pub tool_call_id : String
  pub name : String
  pub reasoning_content : Value
  pub reasoning : Value

pub data Part : Type 0 where
  reasoning_part text_part : String → Part
  image_part : String → String → Part
  call_part result_part : String → String → String → Part

pub data Role : Type 0 where
  assistant tool user : Role

pub record Message : Type 0 where
  pub role : Role
  pub parts : List Part

-- `s, _ := v.(string)`
abbrev pub text_value : Option Value → String
text_value (some (str s)) = s
text_value _ = ""
