-- ===== src/Request/Convert.antt =====
-- go/request.go, `toWireMessages`: the conversation as the gateway takes it. The identifiers that
-- `newID` makes come from a supply, of which the conversion keeps the next.
use cmdcode_go.Base.{
  ℕ, suc, String, ◌==◌, ◌^^◌, Option, none, some, List, [], ◌∷◌, ◌++◌, if◌then◌else◌, trim_space,
  GoMap, empty_map, put, str_dec, Result, ok, err, ◌>>=◌, ◌||◌,
}
use cmdcode_go.Wire.{Codec}
use cmdcode_go.Request.{
  ChatMessage, ToolCall, Part, Message, Role, assistant, tool, user, reasoning_part, text_part,
  call_part, result_part,
}
use cmdcode_go.Request.Content.{
  message_text, message_reasoning, ordered_user_parts, tool_result_text,
}

pub record Conversion : Type 0 where
  pub system : String
  pub out : List Message
  pub tool_names : GoMap String String
  pub next_id : ℕ

-- The name of the tool whose arguments are no JSON value.
pub data ConvertError : Type 0 where
  invalid_arguments : String → ConvertError

unfoldable pub parse_tool_input : Codec → String → Option String
parse_tool_input c args =
    let trimmed = trim_space args in if trimmed == "" then some "{}" else c.compact trimmed

-- The parts and the table of names while the calls of a message are converted.
pub record Calls : Type 0 where
  pub parts : List Part
  pub tool_names : GoMap String String
  pub next_id : ℕ

abbrev pub call_id : (ℕ → String) → ToolCall → ℕ → String
call_id ids call n = if call.id == "" then ids n else call.id

abbrev pub add_call : (ℕ → String) → ToolCall → Calls → Option String → Result ConvertError Calls
add_call ids call s none = err (invalid_arguments call.name)
add_call ids call s (some input) =
    let id = call_id ids call s.next_id in
    ok (record {
      parts = s.parts ++ call_part id call.name input ∷ [];
      tool_names = put str_dec id call.name s.tool_names;
      next_id = if call.id == "" then suc s.next_id else s.next_id;
    })

unfoldable pub add_calls : Codec → (ℕ → String) → List ToolCall → Calls → Result ConvertError Calls
unfolding parse_tool_input
add_calls c ids [] s = ok s
add_calls c ids (call ∷ calls) s = do
  s' ← add_call ids call s (parse_tool_input c call.arguments)
  add_calls c ids calls s'

abbrev pub text_or_nothing : (String → Part) → String → List Part
text_or_nothing part s = if s == "" then [] else part s ∷ []

-- The reasoning and the text, before the calls.
abbrev pub opening : ChatMessage → List Part
opening m =
    text_or_nothing reasoning_part (message_reasoning m)
    ++ text_or_nothing text_part (message_text m.content)

abbrev or_text : Option String → String
or_text none = ""
or_text (some s) = s

-- The name that the message gives, the name of the call it answers, or "unknown".
abbrev pub result_name : ChatMessage → GoMap String String → String
result_name m names =
    let called = or_text (names.get m.tool_call_id) in
    if m.name == "" then (if called == "" then "unknown" else called) else m.name

abbrev pub add_message : Role → List Part → Conversion → Conversion
add_message role parts s = record s { out = s.out ++ record { role = role; parts = parts } ∷ [] }

abbrev pub add_system : String → Conversion → Conversion
add_system text s =
    if text == ""
    then s
    else record s { system = if s.system == "" then text else s.system ^^ "\n\n" ^^ text }

abbrev pub add_user : List Part → Conversion → Conversion
add_user [] s = s
add_user (p ∷ ps) s = add_message user (p ∷ ps) s

abbrev pub add_result : Codec → ChatMessage → Conversion → Conversion
add_result c m s =
    add_message tool
      (result_part m.tool_call_id (result_name m s.tool_names) (tool_result_text c m.content) ∷ [])
      s

abbrev pub add_assistant : Conversion → Calls → Conversion
add_assistant s calls = record s {
  out = s.out ++ record { role = assistant; parts = calls.parts } ∷ [];
  tool_names = calls.tool_names;
  next_id = calls.next_id;
}

abbrev pub calls_before : ChatMessage → Conversion → Calls
calls_before m s = record { parts = opening m; tool_names = s.tool_names; next_id = s.next_id }

-- One round of the loop.
unfoldable pub convert_message :
    Codec → (ℕ → String) → ChatMessage → Conversion → Result ConvertError Conversion
unfolding add_calls
convert_message c ids m s =
    if m.role == "system" || m.role == "developer"
    then ok (add_system (message_text m.content) s)
    else if m.role == "assistant"
    then (do calls ← add_calls c ids m.tool_calls (calls_before m s); ok (add_assistant s calls))
    else if m.role == "tool"
    then ok (add_result c m s)
    else ok (add_user (ordered_user_parts m.content) s)

unfoldable pub convert_messages :
    Codec → (ℕ → String) → List ChatMessage → Conversion → Result ConvertError Conversion
unfolding convert_message
convert_messages c ids [] s = ok s
convert_messages c ids (m ∷ ms) s = do s' ← convert_message c ids m s; convert_messages c ids ms s'

abbrev pub no_messages : Conversion
no_messages = record { system = ""; out = []; tool_names = empty_map; next_id = 0 }

unfoldable pub to_wire_messages :
    Codec → (ℕ → String) → List ChatMessage → Result ConvertError (String × List Message)
unfolding convert_messages
to_wire_messages c ids ms = do s ← convert_messages c ids ms no_messages; ok (s.system, s.out)
