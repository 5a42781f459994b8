-- ===== src/Request/Tests.antt =====
-- go/request.go on a short conversation.
use cmdcode_go.Base.{
  ℕ, String, ◌≡◌, ◌⊎◌, ◌++◌, refl, true, none, some, [], ◌∷◌, pos, ok, trim_space, empty_map, put,
  str_dec, Bool-cases, to_lower, has_prefix, split_last, ends_with, drop_chars, any_char, drop_last,
}
use cmdcode_go.Wire.{Codec, Value, null, str, arr, nil, cons, obj, field, end}
use cmdcode_go.Models.{
  ModelDef, ModelSnapshot, new_snapshot, index_from, short_name, parse_model_name, strip_provider,
  match, definition,
}
use cmdcode_go.Models.Budget.{max_tokens, explicit_budget}
use cmdcode_go.Models.Effort.{
  reasoning_effort, gateway_effort, gateway_chooses, disables, effort_of, effort_in, has_level,
  supported,
}
use cmdcode_go.Request.{ChatMessage, assistant, tool, call_part, result_part}
use cmdcode_go.Request.Content.{
  ordered_user_parts, items_parts, item_parts, message_text, message_rich_text, message_reasoning,
  reasoning_field_text, content_reasoning_text, tool_result_text,
}
use cmdcode_go.Request.Parts.{parts_text, ordered_user_parts-text}
use cmdcode_go.Request.Convert.{
  Conversion, convert_message, convert_messages, to_wire_messages, add_calls, parse_tool_input,
}
use cmdcode_go.Request.Answers.{tool_result_named}
use cmdcode_go.Request.Tools.{
  SchemaCodec, IsRead, IsObjectSchema, is_absent, empty_schema, normalize_schema,
  normalize_schema_sound, to_wire_tools, tool_choice_none,
}
use cmdcode_go.Request.Envelope.{
  ChatRequest, GenerateRequest, Turn, IsFaithful, selection_of, envelope_of, build_envelope,
  build_envelope-IsFaithful,
}

abbrev codec : Codec
codec = record { unmarshal_event = λ line. none; compact = λ text. some text; marshal = λ v. "" }

abbrev schemas : SchemaCodec
schemas = record {
  decode_string = λ text. some "object";
  decode_object = λ text. some (("type", "\"object\"") ∷ []);
  compact = λ text. some text;
  encode_object = λ fields. "{}";
}

abbrev ids : ℕ → String
ids n = "call-1"

abbrev asks : ChatMessage
asks = record {
  role = "assistant";
  content = null;
  tool_calls = record { id = ""; name = "read"; arguments = "{}" } ∷ [];
  tool_call_id = "";
  name = "";
  reasoning_content = null;
  reasoning = null;
}

abbrev answers : ChatMessage
answers = record {
  role = "tool";
  content = str "text";
  tool_calls = [];
  tool_call_id = "call-1";
  name = "";
  reasoning_content = null;
  reasoning = null;
}

abbrev after_call : Conversion
after_call = record {
  system = "";
  out = record { role = assistant; parts = call_part "call-1" "read" "{}" ∷ [] } ∷ [];
  tool_names = put str_dec "call-1" "read" empty_map;
  next_id = 1;
}

program : Unit {0}
unfolding convert_message convert_messages to_wire_messages add_calls parse_tool_input message_text
    message_rich_text message_reasoning reasoning_field_text content_reasoning_text tool_result_text
    ordered_user_parts items_parts item_parts trim_space str_dec parse_model_name strip_provider
    match reasoning_effort to_wire_tools selection_of envelope_of build_envelope max_tokens
    explicit_budget definition tool_choice_none to_lower has_prefix split_last ends_with drop_chars
    any_char Bool-cases drop_last new_snapshot index_from short_name gateway_effort gateway_chooses
    disables effort_of effort_in has_level supported
program = tt

tool_result_named_example :
    convert_message codec ids answers after_call
    ≡ ok (record after_call {
      out =
          after_call.out
          ++ record {
            role = tool;
            parts = result_part "call-1" "read" (tool_result_text codec (str "text")) ∷ [];
          }
            ∷ [];
    })
unfolding program
tool_result_named_example =
    tool_result_named codec ids (asks ∷ []) answers after_call "read" refl refl refl refl (λ e. cc)

abbrev typed : String
typed = "{\"type\":\"object\"}"

normalize_schema_sound_example :
    ((is_absent (trim_space typed) ≡ true) × (typed ≡ empty_schema))
    ⊎ ((object : String) × IsRead schemas (trim_space typed) object
        × IsObjectSchema schemas object typed)
unfolding normalize_schema trim_space has_prefix
normalize_schema_sound_example = normalize_schema_sound schemas typed typed refl

abbrev content : Value
content =
    arr (cons (obj (field "type" (str "text") (field "text" (str "a") end))) (cons (str "b") nil))

ordered_user_parts-text_example : parts_text (ordered_user_parts content) ≡ message_text content
ordered_user_parts-text_example = ordered_user_parts-text content

abbrev kimi : ModelDef
kimi = record {
  id = "moon/Kimi";
  display = "Kimi";
  description = "";
  context = 1000;
  output = 500;
  output_source = "";
  context_source = "";
  gateway_output = 80;
  vision = none;
  efforts = "low" ∷ "high" ∷ [];
}

abbrev catalog : ModelSnapshot
catalog = new_snapshot (kimi ∷ [])

abbrev turn : Turn
turn = record {
  model = "cmdcode-go/KIMI(High)";
  models = catalog;
  session = "uuid";
  permission_mode = "standard";
  date = "2026-01-01";
  environment = "linux";
}

abbrev chat : ChatRequest
chat = record {
  messages = asks ∷ answers ∷ [];
  tools = [];
  tool_choice = str "none";
  temperature = none;
  max_tokens = some (pos 100);
  max_completion_tokens = none;
  reasoning_effort = none;
}

abbrev built : GenerateRequest
built = record {
  date = "2026-01-01";
  environment = "linux";
  permission_mode = "standard";
  thread_id = "uuid";
  params = record {
    model = "moon/Kimi";
    system = "";
    messages =
        after_call.out
        ++ record { role = tool; parts = result_part "call-1" "read" "text" ∷ [] } ∷ [];
    tools = [];
    max_tokens = 80;
    stream = true;
    temperature = none;
    reasoning_effort = some "high";
  };
}

build_envelope-IsFaithful_example : IsFaithful codec schemas ids turn chat built
unfolding program
build_envelope-IsFaithful_example = build_envelope-IsFaithful codec schemas ids turn chat built refl
