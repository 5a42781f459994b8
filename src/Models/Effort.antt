-- ===== src/Models/Effort.antt =====
-- go/models.go, `gatewayEffort`, `supportedEfforts` and `reasoningEffort`: which effort level reaches
-- the gateway.
use cmdcode_go.Base.{
  String, ◌==◌, ◌≡◌, refl, Bool, true, false, not, ◌&&◌, ◌||◌, Option, none, some, List, [], ◌∷◌,
  if◌then◌else◌, trim_space, to_lower, is_some, Result, ok, err, arith, ◌⊎◌, inl, inr, subst, sym,
  Bool-cases, Option-cases, All, All-imp, Any,
}
use cmdcode_go.Models.{ModelDef, ModelSnapshot, Selection, definition}

unfoldable pub gateway_effort : String → Bool
gateway_effort level =
    level == "low" || level == "medium" || level == "high" || level == "xhigh" || level == "max"

unfoldable pub supported : List String → List String
supported [] = []
supported (level ∷ levels) =
    let rest = supported levels in if gateway_effort level then level ∷ rest else rest

unfoldable pub supported_efforts : ModelDef → List String
supported_efforts d = supported d.efforts

-- level == supported for some element
unfoldable pub has_level : String → List String → Bool
has_level level [] = false
has_level level (x ∷ xs) = level == x || has_level level xs

pub record EffortError : Type 0 where
  pub level : String
  pub model : String

abbrev or_body : Option String → Option String → Option String
or_body none body = body
or_body (some suffix) body = some suffix

-- "auto", "default", "-1", and an empty level that is not a suffix
unfoldable pub gateway_chooses : String → Bool → Bool
gateway_chooses level suffixed =
    level == "auto" || level == "default" || level == "-1" || level == "" && not suffixed

unfoldable pub disables : String → Bool
disables level = level == "none" || level == "off" || level == "minimal"

-- The branch for a known model.
unfoldable pub effort_in : String → List String → Option String
effort_in level [] = some level
effort_in level (x ∷ xs) = if has_level level (supported (x ∷ xs)) then some level else none

unfoldable pub effort_of : String → ModelDef → Option String
unfolding effort_in
effort_of level d = effort_in level d.efforts

abbrev check_model : String → String → Option ModelDef → Result EffortError (Option String)
check_model level base none = err (record { level = level; model = base })
check_model level base (some d) = ok (effort_of level d)

abbrev check_level : ModelSnapshot → Selection → String → Result EffortError (Option String)
check_level s selection level =
    if gateway_chooses level (is_some selection.suffix)
    then ok none
    else if disables level
    then ok none
    else if gateway_effort level
    then check_model level selection.base (definition s selection.base)
    else err (record { level = level; model = selection.base })

abbrev check_request :
    ModelSnapshot → Selection → Option String → Result EffortError (Option String)
check_request s selection none = ok none
check_request s selection (some requested) =
    check_level s selection (to_lower (trim_space requested))

unfoldable pub reasoning_effort :
    ModelSnapshot → Selection → Option String → Result EffortError (Option String)
reasoning_effort s selection body = check_request s selection (or_body selection.suffix body)

-- The request in effect: the suffix of the model's name before the field of the body.
abbrev pub requested : Selection → Option String → Option String
requested selection body = or_body selection.suffix body

-- The level reaches the gateway only under these conditions.
pub record IsSendable (s : ModelSnapshot) (selection : Selection) (body : Option String)
    (level : String) : Type 0 where
  pub of_gateway : gateway_effort level ≡ true
  pub asked :
      (raw : String) × (requested selection body ≡ some raw) × (level ≡ to_lower (trim_space raw))
  pub known :
      (d : ModelDef) × (definition s selection.base ≡ some d)
      × ((d.efforts ≡ []) ⊎ (has_level level (supported_efforts d) ≡ true))

effort_in_listed :
    (level sent : String) (efforts : List String)
    → effort_in level efforts ≡ some sent
    → (level ≡ sent) × ((efforts ≡ []) ⊎ (has_level level (supported efforts) ≡ true))
unfolding effort_in
effort_in_listed level sent [] h = (cc, inl refl)
effort_in_listed level sent (x ∷ xs) h = (ground arith, inr (ground arith))

effort_of-listed :
    (level sent : String) (d : ModelDef)
    → effort_of level d ≡ some sent
    → (level ≡ sent) × ((d.efforts ≡ []) ⊎ (has_level level (supported_efforts d) ≡ true))
unfolding effort_of supported_efforts
effort_of-listed level sent d h = effort_in_listed level sent d.efforts h

level_sent :
    (s : ModelSnapshot) (selection : Selection) (body : Option String) (raw level : String)
    → requested selection body ≡ some raw
    → check_level s selection (to_lower (trim_space raw)) ≡ ok (some level)
    → IsSendable s selection body level
level_sent s selection body raw level asks h = elim (Option-cases (definition s selection.base)) [
  | inl unknown ↦ absurd (ground arith)
  | inr (d, known) ↦
      let low = to_lower (trim_space raw) in
      let sent : effort_of low d ≡ some level = ground arith in
      let (same, listed) = effort_of-listed low level d sent in
      record {
        of_gateway = ground arith;
        asked = (raw, asks, sym same);
        known = (
          d,
          known,
          subst (λ l. (d.efforts ≡ []) ⊎ (has_level l (supported_efforts d) ≡ true)) same listed,
        );
      }
]

-- A level is sent only if it is the one asked for, is one of the gateway's, and the model is in the
-- snapshot and lists it or lists none.
pub reasoning_effort_sound :
    (s : ModelSnapshot) (selection : Selection) (body : Option String) (level : String)
    → reasoning_effort s selection body ≡ ok (some level)
    → IsSendable s selection body level
unfolding reasoning_effort
reasoning_effort_sound s selection body level h = elim (Option-cases (requested selection body)) [
  | inl silent ↦ absurd (ground arith)
  | inr (raw, asks) ↦ level_sent s selection body raw level asks (ground arith)
]

-- The error names the level and the model, and is given only for a request in effect that asks for
-- a level that is not sent: one that the gateway does not have, or one for a model that the snapshot
-- does not have. No request is an error in itself, and neither is auto, default, none or minimal.
pub record IsRefused (s : ModelSnapshot) (selection : Selection) (body : Option String)
    (e : EffortError) : Type 0 where
  pub asked :
      (raw : String) × (requested selection body ≡ some raw) × (e.level ≡ to_lower (trim_space raw))
  pub model : e.model ≡ selection.base
  pub not_default : gateway_chooses e.level (is_some selection.suffix) ≡ false
  pub not_disabled : disables e.level ≡ false
  pub unsendable : (gateway_effort e.level ≡ false) ⊎ (definition s selection.base ≡ none)

level_error :
    (s : ModelSnapshot) (selection : Selection) (body : Option String) (raw : String)
    (e : EffortError)
    → requested selection body ≡ some raw
    → check_level s selection (to_lower (trim_space raw)) ≡ err e
    → IsRefused s selection body e
level_error s selection body raw e asks h = record {
  asked = (raw, asks, ground arith);
  model = ground arith;
  not_default = ground arith;
  not_disabled = ground arith;
  unsendable = ground arith;
}

pub reasoning_effort_refuses :
    (s : ModelSnapshot) (selection : Selection) (body : Option String) (e : EffortError)
    → reasoning_effort s selection body ≡ err e
    → IsRefused s selection body e
unfolding reasoning_effort
reasoning_effort_refuses s selection body e h = elim (Option-cases (requested selection body)) [
  | inl silent ↦ absurd (ground arith)
  | inr (raw, asks) ↦ level_error s selection body raw e asks (ground arith)
]

supported_lem :
    (ls : List String) → All (λ l. (gateway_effort l ≡ true) × Any (λ e. e ≡ l) ls) (supported ls)
unfolding supported
supported_lem [] = tt
supported_lem (l ∷ ls) =
    let rest =
      All-imp _ (λ x. (gateway_effort x ≡ true) × Any (λ e. e ≡ x) (l ∷ ls)) (λ x h. (h.0, inr h.1))
        (supported ls) (supported_lem ls) in
    elim (Bool-cases (gateway_effort l)) [
      | inl y ↦ simp y ((refl, inl refl), rest)
      | inr n ↦ simp n rest
    ]

-- The levels that the plugin tells of a model are levels of its own that the gateway takes.
pub supported_efforts_lem :
    (d : ModelDef)
    → All (λ l. (gateway_effort l ≡ true) × Any (λ e. e ≡ l) d.efforts) (supported_efforts d)
unfolding supported_efforts
supported_efforts_lem d = supported_lem d.efforts
