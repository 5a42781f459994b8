-- ===== src/Normalize.antt =====
-- go/normalize.go, and `countTokens` of go/executor.go, whose answers the second hook restores. A body
-- is a text; `none` is the error of a request that is no JSON.
pub mod Framed
pub mod Counted
mod Tests
use cmdcode_go.Base.{
  ℕ, ◌+◌, ◌/◌, len, String, ◌==◌, ◌^^◌, Bool, true, false, not, ◌&&◌, ◌||◌, Option, none, some, ℤ,
  pos, negsuc, is_empty, has_prefix, trim_space, to_lower, if◌then◌else◌,
}
use cmdcode_go.Wire.{Value, int, str, obj, end, field}
use cmdcode_go.Identity.{ExecutorRequest}

-- What the hooks read of a `pluginapi.ResponseTransformRequest`.
pub record TransformRequest : Type 0 where
  pub from_format : String
  pub to_format : String
  pub stream : Bool
  pub body : String

-- What `normalizeAfter` reads of a body.
pub record Carrier : Type 0 where
  pub id : String
  pub kind : String
  pub input_tokens : Option ℤ

-- What is called of `encoding/json`.
pub record Bodies : Type 0 where
  pub transform_request : String → Option TransformRequest
  pub executor_request : String → Option ExecutorRequest
  pub carrier : String → Option Carrier
  pub marshal : Value → String

abbrev format_of : String → String
format_of format = to_lower (trim_space format)

unfoldable pub is_openai_format : String → Bool
is_openai_format format =
    let f = format_of format in
    (f == "openai")
    || (f == "chat-completions")
    || (f == "chat_completions")
    || (f == "openai-chat-completions")
    || (f == "openai_chat_completions")

unfoldable pub is_claude_format : String → Bool
is_claude_format format = let f = format_of format in (f == "claude") || (f == "anthropic")

abbrev pub to_claude : TransformRequest → Bool
to_claude r = is_openai_format r.from_format && is_claude_format r.to_format

unfoldable pub framed : String → String
framed body =
    let trimmed = trim_space body in
    if not (trimmed == "") && not (has_prefix trimmed "data:") then "data: " ^^ trimmed else body

abbrev pub before_body : TransformRequest → String
before_body r = if r.stream && to_claude r then framed r.body else r.body

abbrev pub before : Option TransformRequest → Option String
before none = none
before (some r) = some (before_body r)

unfoldable pub normalize_before : Bodies → String → Option String
unfolding framed
normalize_before j request = before (j.transform_request request)

abbrev pub count_response_id : String
count_response_id = "cmdcode-go-count-tokens-v1"

abbrev counted : Bodies → String → ℤ → String
counted j body (pos n) = j.marshal (obj (field "input_tokens" (int (pos n)) end))
counted j body (negsuc n) = body

abbrev restored : Bodies → String → Option ℤ → String
restored j body none = body
restored j body (some n) = counted j body n

abbrev pub after_carrier : Bodies → String → Option Carrier → String
after_carrier j body none = body
after_carrier j body (some c) =
    if (c.id == count_response_id) && (c.kind == "message")
    then restored j body c.input_tokens
    else body

abbrev pub after_body : Bodies → TransformRequest → String
after_body j r =
    if not r.stream && to_claude r then after_carrier j r.body (j.carrier r.body) else r.body

abbrev pub after : Bodies → Option TransformRequest → Option String
after j none = none
after j (some r) = some (after_body j r)

unfoldable pub normalize_after : Bodies → String → Option String
normalize_after j request = after j (j.transform_request request)

-- The estimate is made of a length, so the test whether it is negative never holds.
abbrev pub estimate_of : ExecutorRequest → ℕ
estimate_of r = len (if is_empty r.original_request then r.payload else r.original_request) / 4 + 8

-- The payload's JSON, its keys in the order that `encoding/json` gives them.
abbrev pub count_value : ℕ → Value
count_value n = obj (
    field "id" (str count_response_id) (
      field "input_tokens" (int (pos n))
        (field "usage" (obj (field "prompt_tokens" (int (pos n)) end)) end)))

abbrev pub count_payload : Bodies → Option ExecutorRequest → Option String
count_payload j none = none
count_payload j (some r) = some (j.marshal (count_value (estimate_of r)))

unfoldable pub count_tokens : Bodies → String → Option String
count_tokens j request = count_payload j (j.executor_request request)
