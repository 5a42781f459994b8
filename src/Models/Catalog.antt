-- ===== src/Models/Catalog.antt =====
-- What an accepted roster is, and that each of its models is found under its names.
use cmdcode_go.Base.{
  ℕ, suc, ◌≤◌, ◌<◌, String, ◌≡◌, ◌≢◌, refl, sym, ◌∙◌, subst, ok_inj, true, false, Option, none,
  some, List, [], ◌∷◌, arith, str_dec, is_some, length, All, All-imp, DistinctBy, DistinctBy-index,
  get_elem?, empty_map, put, to_lower, ok, >>=-eq-ok, eq_iff, any_char, ℤ, pos, negsuc, is_negative,
  to_ℕ,
}
use cmdcode_go.Models.{ModelDef, short_name, new_snapshot, match}
use cmdcode_go.Models.Index.{key_of, match-id}
use cmdcode_go.Models.Roster.{
  RemoteModel, RemoteModelFile, Names, clean_id, to_def, check_model, check_models, parse_file,
  parse_models_file, is_blank,
}

abbrev lower_id : ModelDef → String
lower_id d = to_lower d.id

abbrev short_of : ModelDef → String
short_of d = short_name d.id

-- One accepted model: a name, and budgets that fit a context that is known.
pub record IsWellFormed (d : ModelDef) : Type 0 where
  pub named : d.id ≢ ""
  pub unspaced : any_char is_blank d.id ≡ false
  pub displayed : d.display ≢ ""
  pub fits :
      0 < d.context
      → d.context_source ≢ "fallback"
      → (d.output ≤ d.context) × (d.gateway_output ≤ d.context)

pub record IsRoster (defs : List ModelDef) : Type 0 where
  pub some_models : 0 < length defs
  pub at_most : length defs ≤ 300
  pub each : All IsWellFormed defs
  pub ids : DistinctBy lower_id defs
  pub shorts : DistinctBy short_of defs

check_model-ok :
    (seen shorts : Names) (m : RemoteModel) (d : ModelDef)
    → check_model seen shorts m ≡ ok d
    → IsWellFormed d
      × (d.id ≡ clean_id m)
      × (is_some (seen.get (to_lower d.id)) ≡ false)
      × (is_some (shorts.get (short_name d.id)) ≡ false)
unfolding check_model to_def
check_model-ok seen shorts m d h = (
  record {
    named = ground (arith, eq_iff (clean_id m) "");
    unspaced = ground arith;
    displayed = ground (arith, eq_iff (clean_id m) "", eq_iff m.display "");
    fits = λ a b. ground (arith, eq_iff m.context_source "fallback");
  },
  ground arith,
  ground arith,
  ground arith,
)

-- New to a map of names.
abbrev NewTo : (ModelDef → String) → Names → ModelDef → Type 0
NewTo f names d = is_some (names.get (f d)) ≡ false

NewTo-put :
    (f : ModelDef → String) (k : String) (names : Names) (d : ModelDef)
    → NewTo f (put str_dec k true names) d
    → (f d ≢ k) × NewTo f names d
NewTo-put f k names d h = ground arith

-- A definition that says what a model of the document says: no number of it is negative.
pub record IsOf (m : RemoteModel) (d : ModelDef) : Type 0 where
  pub identified : d.id ≡ clean_id m
  pub described : d.description ≡ m.description
  pub context : m.context ≡ pos d.context
  pub output : m.output ≡ pos d.output
  pub gateway_output : m.gateway_output ≡ pos d.gateway_output
  pub sources : (d.output_source ≡ m.output_source) × (d.context_source ≡ m.context_source)
  pub abilities : (d.vision ≡ m.vision) × (d.efforts ≡ m.efforts)

-- The definitions of the models, one for each, in their order.
abbrev pub AllOf : List RemoteModel → List ModelDef → Type 0
AllOf [] [] = Unit
AllOf (m ∷ ms) (d ∷ ds) = IsOf m d × AllOf ms ds
AllOf [] (d ∷ ds) = ⊥
AllOf (m ∷ ms) [] = ⊥

is_negative-pos : (z : ℤ) → is_negative z ≡ false → z ≡ pos (to_ℕ z)
is_negative-pos (pos n) h = refl
is_negative-pos (negsuc n) h = cc

check_model-IsOf :
    (seen shorts : Names) (m : RemoteModel) (d : ModelDef)
    → check_model seen shorts m ≡ ok d
    → IsOf m d
unfolding check_model to_def
check_model-IsOf seen shorts m d h =
    let same : to_def (clean_id m) m ≡ d = ground arith in
    subst (IsOf m) same (record {
      identified = refl;
      described = refl;
      context = is_negative-pos m.context (ground arith);
      output = is_negative-pos m.output (ground arith);
      gateway_output = is_negative-pos m.gateway_output (ground arith);
      sources = (refl, refl);
      abilities = (refl, refl);
    })

check_models-AllOf :
    (seen shorts : Names) (ms : List RemoteModel) (ds : List ModelDef)
    → check_models seen shorts ms ≡ ok ds
    → AllOf ms ds
unfolding check_models
check_models-AllOf seen shorts [] ds h = subst (AllOf []) (ok_inj h) tt
check_models-AllOf seen shorts (m ∷ ms) ds h =
    let (d, checked, h') = >>=-eq-ok (check_model seen shorts m) _ h in
    let (rest, checked', h'') =
      >>=-eq-ok
        (check_models (put str_dec (to_lower (clean_id m)) true seen)
          (put str_dec (short_name (clean_id m)) true shorts) ms)
        _ h' in
    subst (AllOf (m ∷ ms)) (ok_inj h'') (
      check_model-IsOf seen shorts m d checked,
      check_models-AllOf (put str_dec (to_lower (clean_id m)) true seen)
          (put str_dec (short_name (clean_id m)) true shorts) ms rest checked',
    )

record Accepts (seen shorts : Names) (count : ℕ) (ds : List ModelDef) : Type 0 where
  counted : length ds ≡ count
  formed : All IsWellFormed ds
  new_ids : All (NewTo lower_id seen) ds
  new_shorts : All (NewTo short_of shorts) ds
  ids : DistinctBy lower_id ds
  shorts_apart : DistinctBy short_of ds

-- A model before models that were checked with its names already taken.
Accepts-cons :
    (seen shorts : Names) (n : ℕ) (id : String) (d : ModelDef) (ds : List ModelDef)
    → IsWellFormed d
    → d.id ≡ id
    → NewTo lower_id seen d
    → NewTo short_of shorts d
    → Accepts (put str_dec (to_lower id) true seen) (put str_dec (short_name id) true shorts) n ds
    → Accepts seen shorts (suc n) (d ∷ ds)
Accepts-cons seen shorts n id d ds formed same new_id new_short a =
    let lowers = NewTo-put lower_id (to_lower id) seen in
    let names = NewTo-put short_of (short_name id) shorts in
    record {
      counted = omega (arith, a.counted);
      formed = (formed, a.formed);
      new_ids = (new_id, All-imp _ (NewTo lower_id seen) (λ y h. (lowers y h).1) ds a.new_ids);
      new_shorts =
          (new_short, All-imp _ (NewTo short_of shorts) (λ y h. (names y h).1) ds a.new_shorts);
      ids = (
        rw same (All-imp _ (λ y. to_lower y.id ≢ to_lower id) (λ y h. (lowers y h).0) ds a.new_ids),
        a.ids,
      );
      shorts_apart = (
        rw same (
            All-imp _ (λ y. short_name y.id ≢ short_name id) (λ y h. (names y h).0) ds
              a.new_shorts),
        a.shorts_apart,
      );
    }

check_models-ok :
    (seen shorts : Names) (ms : List RemoteModel) (ds : List ModelDef)
    → check_models seen shorts ms ≡ ok ds
    → Accepts seen shorts (length ms) ds
unfolding check_models
check_models-ok seen shorts [] ds h = subst (Accepts seen shorts 0) (ok_inj h) (record {
  counted = refl;
  formed = tt;
  new_ids = tt;
  new_shorts = tt;
  ids = tt;
  shorts_apart = tt;
})
check_models-ok seen shorts (m ∷ ms) ds h =
    let (d, checked, h') = >>=-eq-ok (check_model seen shorts m) _ h in
    let (rest, checked', h'') =
      >>=-eq-ok
        (check_models (put str_dec (to_lower (clean_id m)) true seen)
          (put str_dec (short_name (clean_id m)) true shorts) ms)
        _ h' in
    let (formed, same, new_id, new_short) = check_model-ok seen shorts m d checked in
    subst (Accepts seen shorts (suc (length ms))) (ok_inj h'') (
      Accepts-cons seen shorts (length ms) (clean_id m) d rest formed same new_id new_short (
        check_models-ok (put str_dec (to_lower (clean_id m)) true seen)
          (put str_dec (short_name (clean_id m)) true shorts) ms rest checked'))

parse_file-ok :
    (doc : RemoteModelFile) (defs : List ModelDef) (version : String)
    → parse_file doc ≡ ok (defs, version)
    → (0 < length doc.models)
      × (length doc.models ≤ 300)
      × (check_models empty_map empty_map doc.models ≡ ok defs)
unfolding parse_file
parse_file-ok doc defs version h = (ground arith, ground arith, ground arith)

parse_file-IsRoster :
    (doc : RemoteModelFile) (defs : List ModelDef) (version : String)
    → parse_file doc ≡ ok (defs, version)
    → IsRoster defs
parse_file-IsRoster doc defs version h =
    let (least, most, checked) = parse_file-ok doc defs version h in
    let a = check_models-ok empty_map empty_map doc.models defs checked in
    record {
      some_models = omega (arith, a.counted);
      at_most = omega (arith, a.counted);
      each = a.formed;
      ids = a.ids;
      shorts = a.shorts_apart;
    }

-- The definitions of the document, if there is one.
abbrev pub FromDocument : Option RemoteModelFile → List ModelDef → Type 0
FromDocument none defs = ⊥
FromDocument (some doc) defs = AllOf doc.models defs

-- A roster that is accepted has 1 to 300 models, each with a name without blanks and with budgets
-- within its context if that is known, and no two share an identifier or a short name in any case.
-- They are the models of the document, in its order and with its numbers, none of which is negative.
pub parse_models_file-IsRoster :
    (doc : Option RemoteModelFile) (defs : List ModelDef) (version : String)
    → parse_models_file doc ≡ ok (defs, version)
    → IsRoster defs × FromDocument doc defs
unfolding parse_models_file
parse_models_file-IsRoster none defs version h = cc
parse_models_file-IsRoster (some doc) defs version h =
    let (least, most, checked) = parse_file-ok doc defs version h in
    (
      parse_file-IsRoster doc defs version h,
      check_models-AllOf empty_map empty_map doc.models defs checked,
    )

-- A model of an accepted roster is found under its own identifier, and under that in any other case
-- or behind the provider's prefix: under each name that the parser of names takes to that identifier.
pub match-roster :
    (doc : Option RemoteModelFile) (defs : List ModelDef) (version : String) (name : String) (i : ℕ)
    (d : ModelDef)
    → parse_models_file doc ≡ ok (defs, version)
    → get_elem? defs i ≡ some d
    → key_of name ≡ to_lower d.id
    → match (new_snapshot defs) name ≡ some d.id
match-roster doc defs version name i d h g same =
    let roster = (parse_models_file-IsRoster doc defs version h).0 in
    let (n, e, at, spelled, found) = match-id defs name i d g (sym same) in
    let here = DistinctBy-index lower_id defs n i e d roster.ids at g (spelled ∙ same) in
    ground (arith, found)
