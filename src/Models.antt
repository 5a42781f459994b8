-- ===== src/Models.antt =====
-- go/models.go: model definitions, names with namespaces and effort suffixes, and the immutable
-- snapshot with its two indexes. Budgets are natural numbers: a roster with a negative one is refused
-- before a snapshot is made of it, and the compiled table has none.
pub mod Effort
pub mod Budget
pub mod Registered
pub mod Index
pub mod Suffix
pub mod Filtering
pub mod Roster
pub mod Catalog
mod Tests
use Prim.Native.String.{count}
use cmdcode_go.Base.{
  ℕ, suc, String, ◌==◌, ◌^^◌, Bool, true, false, not, ◌&&◌, ◌||◌, Option, none, some, List, [], ◌∷◌,
  leb, ltb, if◌then◌else◌, GoMap, empty_map, put, str_dec, is_some, trim_space, to_lower,
  drop_chars, has_prefix, trim_prefix, split_last, ends_with, drop_last, any_char, eqb, get_elem?,
}

pub record ModelDef : Type 0 where
  pub id : String
  pub display : String
  pub description : String
  pub context : ℕ
  pub output : ℕ
  pub output_source : String
  pub context_source : String
  pub gateway_output : ℕ
  pub vision : Option Bool
  pub efforts : List String

-- An index is `none` where the source has -1: a short name that two models share.
pub record ModelSnapshot : Type 0 where
  pub defs : List ModelDef
  pub by_id : GoMap String ℕ
  pub by_short : GoMap String (Option ℕ)

abbrev after_slash : String → Option (String × String) → String
after_slash id none = id
after_slash id (some (before, after)) = after

-- strings.ToLower(d.id[strings.LastIndex(d.id, "/")+1:])
unfoldable pub short_name : String → String
short_name id = to_lower (after_slash id (split_last b'/' id))

abbrev pub add_short : ℕ → String → GoMap String (Option ℕ) → GoMap String (Option ℕ)
add_short i k m = put str_dec k (if is_some (m.get k) then none else some i) m

-- One round of the loop of `newModelSnapshot`.
abbrev pub index_def : ℕ → ModelDef → ModelSnapshot → ModelSnapshot
index_def i d s = record s {
  by_id = put str_dec (to_lower d.id) i s.by_id;
  by_short = add_short i (short_name d.id) s.by_short;
}

unfoldable pub index_from : ℕ → List ModelDef → ModelSnapshot → ModelSnapshot
index_from i [] s = s
index_from i (d ∷ ds) s = index_from (suc i) ds (index_def i d s)

unfoldable pub new_snapshot : List ModelDef → ModelSnapshot
unfolding index_from
new_snapshot defs =
    index_from 0 defs (record { defs = defs; by_id = empty_map; by_short = empty_map })

pub record Selection : Type 0 where
  pub base : String
  pub suffix : Option String

abbrev pub provider_key : String
provider_key = "cmdcode-go"

abbrev pub legacy_prefix : String
legacy_prefix = "cpa-cmdcode-go/"

abbrev pub provider_prefix : String
provider_prefix = "cmdcode-go/"

-- The loop over the two prefixes, which stops at the first that fits.
unfoldable pub strip_provider : String → String
strip_provider base =
    if has_prefix (to_lower base) legacy_prefix
    then drop_chars (count legacy_prefix) base
    else if has_prefix (to_lower base) provider_prefix
    then drop_chars (count provider_prefix) base
    else base

abbrev pub split_suffix : String → Bool → Option (String × String) → Selection
split_suffix name closed none = record { base = name; suffix = none }
split_suffix name false (some (before, after)) = record { base = name; suffix = none }
split_suffix name true (some (before, after)) = record {
  base = trim_space before;
  suffix = some (to_lower (trim_space (drop_last after)));
}

abbrev pub strip_selection : Selection → Selection
strip_selection s = record s { base = strip_provider s.base }

unfoldable pub parse_model_name : String → Selection
parse_model_name raw =
    let name = trim_space raw in
    strip_selection (split_suffix name (ends_with b')' name) (split_last b'(' name))

-- s.defs[i].id
abbrev pub id_at : ModelSnapshot → ℕ → Option String
id_at s i = elim (get_elem? s.defs i) [ none ↦ none | some d ↦ some d.id ]

abbrev pub short_id : ModelSnapshot → Option (Option ℕ) → Option String
short_id s none = none
short_id s (some none) = none
short_id s (some (some i)) = id_at s i

abbrev pub match_short : ModelSnapshot → String → Option String
match_short s key = if any_char (λ c. eqb c b'/') key then none else short_id s (s.by_short.get key)

abbrev pub match_key : ModelSnapshot → String → Option ℕ → Option String
match_key s key (some i) = id_at s i
match_key s key none = match_short s key

unfoldable pub match : ModelSnapshot → String → Option String
match s name = let key = to_lower (parse_model_name name).base in match_key s key (s.by_id.get key)

pub record Filters : Type 0 where
  pub models : List String
  pub disable_models : List String

abbrev pub is_match : Option String → String → Bool
is_match none id = false
is_match (some canonical) id = canonical == id

-- Some name of the list matches the model.
unfoldable pub names_model : ModelSnapshot → String → List String → Bool
names_model s id [] = false
names_model s id (x ∷ xs) = is_match (match s x) id || names_model s id xs

abbrev pub listed : ModelSnapshot → String → List String → Bool
listed s id [] = true
listed s id (x ∷ xs) = names_model s id (x ∷ xs)

unfoldable pub allowed : ModelSnapshot → String → Filters → Bool
allowed s id cfg = if names_model s id cfg.disable_models then false else listed s id cfg.models

abbrev or_base : String → Option String → String
or_base name none = (parse_model_name name).base
or_base name (some id) = id

pub resolve : ModelSnapshot → String → String
resolve s name = or_base name (match s name)

abbrev pub def_at : ModelSnapshot → Option ℕ → Option ModelDef
def_at s none = none
def_at s (some i) = get_elem? s.defs i

unfoldable pub definition : ModelSnapshot → String → Option ModelDef
definition s id = def_at s (s.by_id.get (to_lower (parse_model_name id).base))
