-- ===== src/Models/Registered.antt =====
-- go/models.go, `Registered`: what the plugin tells the host of its models. Fields of constant value
-- (Object, OwnedBy, Type, the methods, the output modalities and UserDefined) are left out; the
-- modalities are the flag `vision`, and the parameters are the base list with or without
-- `reasoning_effort`, which is `levels` being there.
use cmdcode_go.Base.{
  ℕ, ◌<◌, String, ◌==◌, ◌^^◌, ◌≡◌, ◌≢◌, refl, Bool, true, false, Option, none, some, List, [], ◌∷◌,
  All, Any, arith, if◌then◌else◌, ltb, trim_prefix, eq_iff, Bool-cases, inl, inr, ◌⊎◌, ◌↔◌, ap,
  has_prefix, trim_prefix_cases, filter,
}
use cmdcode_go.Models.{ModelDef, ModelSnapshot, Filters, allowed, provider_prefix, legacy_prefix}
use cmdcode_go.Models.Effort.{supported_efforts, gateway_effort, supported_efforts_lem}

pub record ModelInfo : Type 0 where
  pub id : String
  pub display_name : String
  pub description : String
  pub context_length : ℕ
  pub max_completion_tokens : ℕ
  pub vision : Bool
  pub levels : Option (List String)

abbrev has_vision : Option Bool → Bool
has_vision none = false
has_vision (some v) = v

abbrev advertised_context : ModelDef → ℕ
advertised_context d = if d.context_source == "fallback" then 0 else d.context

abbrev advertised_output : ModelDef → ℕ
advertised_output d =
    if ltb 0 d.gateway_output
    then d.gateway_output
    else if d.output_source == "fallback"
    then 0
    else d.output

abbrev thinking : List String → Option (List String)
thinking [] = none
thinking (x ∷ xs) = some (x ∷ xs)

unfoldable pub model_info : ModelDef → ModelInfo
model_info d = record {
  id = provider_prefix ^^ trim_prefix (trim_prefix d.id legacy_prefix) provider_prefix;
  display_name = d.display;
  description = d.description;
  context_length = advertised_context d;
  max_completion_tokens = advertised_output d;
  vision = has_vision d.vision;
  levels = thinking (supported_efforts d);
}

pub register_each : ModelSnapshot → Filters → List ModelDef → List ModelInfo
unfolding model_info
register_each s cfg [] = []
register_each s cfg (d ∷ ds) =
    let rest = register_each s cfg ds in if allowed s d.id cfg then model_info d ∷ rest else rest

pub registered : ModelSnapshot → Filters → List ModelInfo
unfolding register_each
registered s cfg = register_each s cfg s.defs

-- The name of a model without one provider's prefix of each kind, the old one first.
abbrev pub IsBare : String → String → Type 0
IsBare id name =
    (inner : String) × (((has_prefix id legacy_prefix ≡ true) × (id ≡ legacy_prefix ^^ inner))
      ⊎ ((has_prefix id legacy_prefix ≡ false) × (inner ≡ id)))
    × (((has_prefix inner provider_prefix ≡ true) × (inner ≡ provider_prefix ^^ name))
        ⊎ ((has_prefix inner provider_prefix ≡ false) × (name ≡ inner)))

bare : (id : String) → IsBare id (trim_prefix (trim_prefix id legacy_prefix) provider_prefix)
bare id = (
  trim_prefix id legacy_prefix,
  trim_prefix_cases id legacy_prefix,
  trim_prefix_cases (trim_prefix id legacy_prefix) provider_prefix,
)

-- What is told of a model: its name behind the provider's prefix, limits only from what is known, and levels that the gateway takes.
pub record IsHonest (d : ModelDef) (r : ModelInfo) : Type 0 where
  pub named : (name : String) × IsBare d.id name × (r.id ≡ provider_prefix ^^ name)
  pub described : r.description ≡ d.description
  pub sees : (r.vision ≡ true) ↔ (d.vision ≡ some true)
  pub displayed : r.display_name ≡ d.display
  pub context_unknown : d.context_source ≡ "fallback" → r.context_length ≡ 0
  pub context_known : d.context_source ≢ "fallback" → r.context_length ≡ d.context
  pub output_limited : 0 < d.gateway_output → r.max_completion_tokens ≡ d.gateway_output
  pub output_unknown :
      d.gateway_output ≡ 0 → d.output_source ≡ "fallback" → r.max_completion_tokens ≡ 0
  pub levels_known :
      (ls : List String)
      → r.levels ≡ some ls
      → All (λ l. (gateway_effort l ≡ true) × Any (λ e. e ≡ l) d.efforts) ls

thinking-some : (xs ls : List String) → thinking xs ≡ some ls → xs ≡ ls
thinking-some [] ls h = cc
thinking-some (x ∷ xs) ls h = cc

has_vision_iff : (o : Option Bool) → (has_vision o ≡ true) ↔ (o ≡ some true)
has_vision_iff none = ((λ h. cc), λ h. cc)
has_vision_iff (some b) = ((λ h. ap some h), λ h. cc)

model_info-IsHonest : (d : ModelDef) → IsHonest d (model_info d)
unfolding model_info
model_info-IsHonest d = record {
  named = (_, bare d.id, refl);
  described = refl;
  sees = has_vision_iff d.vision;
  displayed = refl;
  context_unknown = λ h. ground (arith, eq_iff d.context_source "fallback");
  context_known = λ h. ground (arith, eq_iff d.context_source "fallback");
  output_limited = λ h. ground arith;
  output_unknown = λ h k. ground (arith, eq_iff d.output_source "fallback");
  levels_known = λ ls h. rw (← thinking-some (supported_efforts d) ls h) (supported_efforts_lem d);
}

-- The entries of the models, one for each, in their order.
abbrev pub Told : List ModelDef → List ModelInfo → Type 0
Told [] [] = Unit
Told (d ∷ ds) (r ∷ rs) = IsHonest d r × Told ds rs
Told [] (r ∷ rs) = ⊥
Told (d ∷ ds) [] = ⊥

each-Told :
    (s : ModelSnapshot) (cfg : Filters) (ds : List ModelDef)
    → Told (filter (λ d. allowed s d.id cfg) ds) (register_each s cfg ds)
unfolding register_each
each-Told s cfg [] = tt
each-Told s cfg (d ∷ ds) = elim (Bool-cases (allowed s d.id cfg)) [
  | inl y ↦ simp y (model_info-IsHonest d, each-Told s cfg ds)
  | inr n ↦ simp n (each-Told s cfg ds)
]

-- The entries that the host is given are those of the allowed models, one for each, in the catalog's
-- order. An entry has the model's identifier, less a provider's prefix, behind the provider's prefix,
-- with the model's display name, description and vision; it never states a fallback budget as a limit
-- nor an effort level that its model or the gateway does not take.
pub registered-IsHonest :
    (s : ModelSnapshot) (cfg : Filters)
    → Told (filter (λ d. allowed s d.id cfg) s.defs) (registered s cfg)
unfolding registered
registered-IsHonest s cfg = each-Told s cfg s.defs
