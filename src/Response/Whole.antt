-- ===== src/Response/Whole.antt =====
-- go/response.go, `toOpenAIResponse`: a buffered answer as one completion, before it is encoded.
use cmdcode_go.Base.{ℕ, suc, String, ◌==◌, Option, none, some, List, [], ◌∷◌, if◌then◌else◌}
use cmdcode_go.Response.{Accumulated, Tool, UsageReport, openai_usage}

pub record WholeCall : Type 0 where
  pub id : String
  pub name : String
  pub arguments : String

-- The keys of the completion and of its message that depend on the answer; a key that is left out is
-- `none`.
pub record Completion : Type 0 where
  pub id : String
  pub created : ℕ
  pub model : String
  pub content : String
  pub reasoning_content : Option String
  pub tool_calls : Option (List WholeCall)
  pub finish : String
  pub usage : UsageReport

-- `ids i` is what `newID` gives for the `i`th call if it has no identifier.
abbrev pub whole_call : (ℕ → String) → ℕ → Tool → WholeCall
whole_call ids i t = record {
  id = if t.id == "" then ids i else t.id;
  name = t.name;
  arguments = if t.input == "" then "{}" else t.input;
}

unfoldable pub openai_tool_calls : (ℕ → String) → ℕ → List Tool → List WholeCall
openai_tool_calls ids i [] = []
openai_tool_calls ids i (t ∷ ts) = whole_call ids i t ∷ openai_tool_calls ids (suc i) ts

abbrev pub if_any : List WholeCall → Option (List WholeCall)
if_any [] = none
if_any (c ∷ cs) = some (c ∷ cs)

unfoldable pub to_openai_response : String → ℕ → (ℕ → String) → String → Accumulated → Completion
unfolding openai_tool_calls
to_openai_response id created ids model a = record {
  id = id;
  created = created;
  model = model;
  content = a.text;
  reasoning_content = if a.reasoning == "" then none else some a.reasoning;
  tool_calls = if_any (openai_tool_calls ids 0 a.tool_calls);
  finish = a.finish;
  usage = openai_usage a;
}
