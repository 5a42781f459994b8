-- ===== src/Models/Filtering.antt =====
-- go/models.go, `Allowed`: the configured lists against the names in the catalog.
use cmdcode_go.Base.{
  String, ◌≡◌, ◌↔◌, ◌⊎◌, inl, inr, refl, ap, true, Option, none, some, List, [], ◌∷◌, Any, arith,
  eq_iff, Bool-cases,
}
use cmdcode_go.Models.{ModelSnapshot, Filters, match, is_match, names_model, listed, allowed}

-- A name that `Match` resolves to the model.
abbrev pub Names : ModelSnapshot → String → String → Type 0
Names s id name = match s name ≡ some id

module _ (s : ModelSnapshot) (id : String) where
  is_match_sound : (o : Option String) → is_match o id ≡ true → o ≡ some id
  is_match_sound none h = cc
  is_match_sound (some x) h = ap some ((eq_iff x id).0 h)

  is_match_complete : (o : Option String) → o ≡ some id → is_match o id ≡ true
  is_match_complete none h = cc
  is_match_complete (some x) h = let e : x ≡ id = cc in (eq_iff x id).1 e

  listed_sound : (xs : List String) → names_model s id xs ≡ true → Any (Names s id) xs
  unfolding names_model
  listed_sound [] h = cc
  listed_sound (x ∷ xs) h = elim (Bool-cases (is_match (match s x) id)) [
    | inl y ↦ inl (is_match_sound (match s x) y)
    | inr n ↦ inr (listed_sound xs (ground arith))
  ]

  listed_complete : (xs : List String) → Any (Names s id) xs → names_model s id xs ≡ true
  unfolding names_model
  listed_complete [] h = elim h [ ]
  listed_complete (x ∷ xs) (inl h) = let y = is_match_complete (match s x) h in ground arith
  listed_complete (x ∷ xs) (inr h) = let y = listed_complete xs h in ground arith

  let_through : (xs : List String) → listed s id xs ≡ true → (xs ≡ []) ⊎ Any (Names s id) xs
  let_through [] h = inl refl
  let_through (x ∷ xs) h = inr (listed_sound (x ∷ xs) h)

  lets_through : (xs : List String) → (xs ≡ []) ⊎ Any (Names s id) xs → listed s id xs ≡ true
  lets_through [] h = refl
  lets_through (x ∷ xs) (inl h) = cc
  lets_through (x ∷ xs) (inr h) = listed_complete (x ∷ xs) h

  -- The deny list wins over the allow list, and an empty allow list lets every model through: a model
  -- is offered exactly when no denied name means it and some allowed name does, if there are any.
  pub allowed_iff :
      (cfg : Filters)
      → (allowed s id cfg ≡ true) ↔ (
          (¬ Any (Names s id) cfg.disable_models)
          × ((cfg.models ≡ []) ⊎ Any (Names s id) cfg.models))
  unfolding allowed
  allowed_iff cfg = (
    λ h. (
      λ denied. let d = listed_complete cfg.disable_models denied in ground arith,
      let_through cfg.models (ground arith),
    ),
    λ (undenied, some_name).
        let l = lets_through cfg.models some_name in
        elim (Bool-cases (names_model s id cfg.disable_models)) [
          | inl y ↦ absurd (undenied (listed_sound cfg.disable_models y))
          | inr n ↦ ground arith
        ],
  )
