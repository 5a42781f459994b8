-- ===== src/Normalize/Counted.antt =====
-- A token count that goes through the host's translation of completions.
use cmdcode_go.Base.{ℕ, String, ◌≡◌, refl, sym, ap, ◌∙◌, true, false, Option, none, some, pos}
use cmdcode_go.Wire.{Value, Fields, int, str, obj, end, field, get_field}
use cmdcode_go.Identity.{ExecutorRequest}
use cmdcode_go.Normalize.{
  TransformRequest, Bodies, to_claude, after, normalize_after, count_payload, count_response_id,
  count_value, estimate_of, count_tokens,
}

abbrev as_text : Option Value → Option String
as_text (some (str s)) = some s
as_text v = none

abbrev as_count : Option Value → Option ℕ
as_count (some (int (pos n))) = some n
as_count v = none

abbrev pub fields_of : Option Value → Fields
fields_of (some (obj fs)) = fs
fields_of v = end

-- The `id` and the `usage.prompt_tokens` of a completion.
unfoldable pub completion_id : Value → Option String
unfolding get_field
completion_id v = as_text (get_field "id" (fields_of (some v)))

unfoldable pub prompt_tokens : Value → Option ℕ
unfolding get_field
prompt_tokens v =
    as_count (get_field "prompt_tokens" (fields_of (get_field "usage" (fields_of (some v)))))

-- What is documented of the host: the id and the prompt tokens of any completion become the id and the
-- input tokens of a Claude message. It is asked for completions with the id of a count only.
abbrev pub KeepsUsage : Bodies → (String → String) → Type 0
KeepsUsage j translate =
    (v : Value) (n : ℕ)
    → completion_id v ≡ some count_response_id
    → prompt_tokens v ≡ some n
    → j.carrier (translate (j.marshal v))
      ≡ some (record { id = count_response_id; kind = "message"; input_tokens = some (pos n) })

some_inj : {a b : String} → some a ≡ some b → a ≡ b
some_inj same = cc

-- If the host's translator makes the id and the prompt tokens of a completion the id and the input
-- tokens of a Claude message, and asks the second
-- hook about the translated body on its way from an OpenAI to a Claude format, the hook restores the
-- count-only response with the estimate that `countTokens` made of that request.
pub count_tokens-restored :
    (j : Bodies) (translate : String → String) (request again body : String) (er : ExecutorRequest)
    (r : TransformRequest)
    → KeepsUsage j translate
    → j.executor_request request ≡ some er
    → count_tokens j request ≡ some body
    → j.transform_request again ≡ some r
    → r.stream ≡ false
    → to_claude r ≡ true
    → r.body ≡ translate body
    → normalize_after j again
      ≡ some (j.marshal (obj (field "input_tokens" (int (pos (estimate_of er))) end)))
unfolding normalize_after count_tokens completion_id prompt_tokens get_field
count_tokens-restored j translate request again body er r keeps read counted asked whole claude
      given =
    let made : j.marshal (count_value (estimate_of er)) ≡ body =
      some_inj (sym (ap (count_payload j) read) ∙ counted) in
    let carried : j.carrier r.body
        ≡ some (record {
          id = count_response_id;
          kind = "message";
          input_tokens = some (pos (estimate_of er));
        }) =
      ap j.carrier (given ∙ ap translate (sym made))
      ∙ keeps (count_value (estimate_of er)) (estimate_of er) refl refl in
    ap (after j) asked ∙ simp (whole, claude, carried) refl
