-- ===== src/Models/Budget.antt =====
-- go/request.go, `maxTokens`: the output budget of a turn. What the client asks for is clamped by a
-- gateway limit only.
use cmdcode_go.Base.{
  ℕ, ◌≤◌, ◌<◌, String, ◌==◌, ◌≡◌, ◌≢◌, Option, none, some, if◌then◌else◌, min, ltb, ℤ, positive,
  false, arith, eq_iff, ◌⊎◌, inl, inr, Bool-cases, ◌&&◌,
}
use cmdcode_go.Models.{ModelDef, ModelSnapshot, definition}

abbrev pub default_max_tokens : ℕ
default_max_tokens = 64000

abbrev or_else : Option ℕ → Option ℕ → Option ℕ
or_else none b = b
or_else (some n) b = some n

-- max_tokens before max_completion_tokens; a number that is not positive counts as absent
unfoldable pub explicit_budget : Option ℤ → Option ℤ → Option ℕ
explicit_budget tokens completion = or_else (positive tokens) (positive completion)

abbrev wanted : Option ℕ → ℕ
wanted none = default_max_tokens
wanted (some n) = n

-- The default budget, by the reference output of the model.
abbrev reference_budget : ModelDef → Option ℕ → ℕ
reference_budget d (some n) = n
reference_budget d none =
    if ltb 0 d.output
    then (if d.output_source == "fallback" then d.output else min default_max_tokens d.output)
    else default_max_tokens

abbrev cap_budget : ModelDef → ℕ → ℕ
cap_budget d want = if ltb 0 d.gateway_output then min want d.gateway_output else want

abbrev budget_of : Option ModelDef → Option ℕ → ℕ
budget_of none asked = wanted asked
budget_of (some d) asked = cap_budget d (reference_budget d asked)

unfoldable pub max_tokens : ModelSnapshot → Option ℤ → Option ℤ → String → ℕ
unfolding explicit_budget
max_tokens s tokens completion id = budget_of (definition s id) (explicit_budget tokens completion)

unlimited : (g n : ℕ) → (ltb 0 g && ltb g n) ≡ false → (g ≡ 0) ⊎ (n ≤ g)
unlimited g n h = elim (Bool-cases (ltb 0 g)) [
  | inl y ↦ inr (ground arith)
  | inr z ↦ inl (ground arith)
]

-- A budget that the client asks for is sent as it is if the gateway has no limit or one that is not
-- lower, and a lower limit of the gateway's is sent in its place; reference and fallback data never
-- clamp it.
pub max_tokens-explicit :
    (s : ModelSnapshot) (a b : Option ℤ) (id : String) (n : ℕ) (d : ModelDef)
    → explicit_budget a b ≡ some n
    → definition s id ≡ some d
    → (((d.gateway_output ≡ 0) ⊎ (n ≤ d.gateway_output)) × (max_tokens s a b id ≡ n))
      ⊎ ((0 < d.gateway_output) × (d.gateway_output < n) × (max_tokens s a b id ≡ d.gateway_output))
unfolding max_tokens
max_tokens-explicit s a b id n d asked known =
    elim (Bool-cases (ltb 0 d.gateway_output && ltb d.gateway_output n)) [
      | inl y ↦ inr (ground arith, ground arith, ground arith)
      | inr m ↦ inl (unlimited d.gateway_output n m, ground arith)
    ]

-- A positive gateway limit bounds every budget, asked for or not.
pub max_tokens-le-gateway :
    (s : ModelSnapshot) (a b : Option ℤ) (id : String) (d : ModelDef)
    → definition s id ≡ some d
    → 0 < d.gateway_output
    → max_tokens s a b id ≤ d.gateway_output
unfolding max_tokens
max_tokens-le-gateway s a b id d known limited = ground arith

-- Without a budget of the client's, a model whose output is known and no fallback gets at most 64000
-- tokens and at most its output.
pub max_tokens-default :
    (s : ModelSnapshot) (a b : Option ℤ) (id : String) (d : ModelDef)
    → explicit_budget a b ≡ none
    → definition s id ≡ some d
    → 0 < d.output
    → d.output_source ≢ "fallback"
    → (max_tokens s a b id ≤ default_max_tokens) × (max_tokens s a b id ≤ d.output)
unfolding max_tokens
max_tokens-default s a b id d asked known output real =
    ground (arith, eq_iff d.output_source "fallback")

-- The gateway is always asked for at least one token.
pub max_tokens-pos : (s : ModelSnapshot) (a b : Option ℤ) (id : String) → 0 < max_tokens s a b id
unfolding max_tokens explicit_budget
max_tokens-pos s a b id = ground arith
