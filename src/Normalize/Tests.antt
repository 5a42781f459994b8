-- ===== src/Normalize/Tests.antt =====
-- A chunk, and a count, on their way to Claude.
use text.Mathlib.TextPositions.{len-append}
use cmdcode_go.Base.{
  ℕ, zero, suc, ◌≡◌, refl, String, Bool, true, false, Option, none, some, [], pos, len, ap, ◌∙◌,
  ◌^^◌, arith, has_prefix, trim_space, to_lower,
}
use cmdcode_go.Wire.{Value, int, end, get_field}
use cmdcode_go.Identity.{ExecutorRequest}
use cmdcode_go.Normalize.{
  TransformRequest, Bodies, is_openai_format, is_claude_format, framed, normalize_before,
  normalize_after, count_tokens, count_response_id,
}
use cmdcode_go.Normalize.Framed.{IsFraming, normalize_before-framed}
use cmdcode_go.Normalize.Counted.{
  KeepsUsage, fields_of, completion_id, prompt_tokens, count_tokens-restored,
}

abbrev of : Bool → String → TransformRequest
of stream body = record {
  from_format = " OpenAI";
  to_format = "claude";
  stream = stream;
  body = body;
}

-- A number as that many strokes.
abbrev strokes : ℕ → String
strokes zero = ""
strokes (suc n) = let s = strokes n in "|" ^^ s

len-strokes : (n : ℕ) → len (strokes n) ≡ n
len-strokes zero = refl
len-strokes (suc n) = rw (len-append "|" (strokes n)) (omega (arith, len-strokes n))

-- A completion by its prompt tokens, a count-only response by its input tokens.
abbrev strokes_of : Option ℕ → Option Value → String
strokes_of (some n) v = strokes n
strokes_of none (some (int (pos n))) = strokes n
strokes_of none v = ""

abbrev encoded : Value → String
unfolding get_field
encoded v = strokes_of (prompt_tokens v) (get_field "input_tokens" (fields_of (some v)))

abbrev executor_request : ExecutorRequest
executor_request = record {
  model = "kimi";
  payload = "hello";
  original_request = "";
  headers = [];
  metadata = end;
  auth_id = "";
}

abbrev bodies : Bool → Bodies
bodies stream = record {
  transform_request = λ s. some (of stream s);
  executor_request = λ s. some executor_request;
  carrier = λ s.
      some (record { id = count_response_id; kind = "message"; input_tokens = some (pos (len s)) });
  marshal = encoded;
}

chunk : normalize_before (bodies true) " {} " ≡ some "data: {}"
unfolding normalize_before framed is_openai_format is_claude_format to_lower trim_space has_prefix
chunk = refl

count : count_tokens (bodies false) "r" ≡ some "|||||||||"
unfolding count_tokens get_field prompt_tokens
count = refl

normalize_before-framed_example :
    (body : String) × (normalize_before (bodies true) " {} " ≡ some body)
    × IsFraming " {} " body
    × (has_prefix (trim_space body) "data:" ≡ true)
    × (normalize_before (bodies true) "data: {}" ≡ some body)
unfolding framed is_openai_format is_claude_format to_lower trim_space has_prefix
normalize_before-framed_example =
    normalize_before-framed (bodies true) " {} " "data: {}" (of true " {} ") refl refl refl refl
      (λ h. cc)

bodies-KeepsUsage : KeepsUsage (bodies false) (λ s. s)
unfolding encoded prompt_tokens
bodies-KeepsUsage v n named counted =
    ap
      (λ k. some (record { id = count_response_id; kind = "message"; input_tokens = some (pos k) }))
      (ap (λ o. len (strokes_of o (get_field "input_tokens" (fields_of (some v))))) counted
        ∙ len-strokes n)

count_tokens-restored_example : normalize_after (bodies false) "|||||||||" ≡ some "|||||||||"
unfolding count_tokens completion_id prompt_tokens get_field is_openai_format is_claude_format
    to_lower trim_space
count_tokens-restored_example =
    count_tokens-restored (bodies false) (λ s. s) "r" "|||||||||" "|||||||||" executor_request
      (of false "|||||||||") bodies-KeepsUsage refl refl refl refl refl refl
