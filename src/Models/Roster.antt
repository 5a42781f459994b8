-- ===== src/Models/Roster.antt =====
-- go/models_remote.go, `parseModelsFile`: the checks on a downloaded or local roster. Its argument is
-- what `json.Unmarshal` made of the bytes, `none` if that failed.
use cmdcode_go.Base.{
  ℕ, String, ◌==◌, Bool, true, false, not, ◌&&◌, ◌||◌, Option, none, some, List, [], ◌∷◌, str_dec,
  is_some, length, GoMap, empty_map, put, to_lower, trim_space, trim_prefix, any_char, eqb, ltb,
  if◌then◌else◌, ℤ, pos, negsuc, is_negative, to_ℕ, Result, ok, err, ◌>>=◌, ◌>>◌, fails_if,
}
use cmdcode_go.Models.{ModelDef, short_name, legacy_prefix, provider_prefix}

pub record RemoteModel : Type 0 where
  pub id : String
  pub display : String
  pub description : String
  pub context : ℤ
  pub output : ℤ
  pub output_source : String
  pub context_source : String
  pub vision : Option Bool
  pub efforts : List String
  pub gateway_output : ℤ

pub record RemoteModelFile : Type 0 where
  pub source : String
  pub schema_version : ℤ
  pub source_cli_version : String
  pub models : List RemoteModel

pub data RosterError : Type 0 where
  invalid_json : RosterError
  unsupported_schema : ℤ → RosterError
  invalid_count : ℕ → RosterError
  invalid_id negative_budget output_exceeds_context : String → RosterError

unfoldable pub clean_id : RemoteModel → String
clean_id m = trim_prefix (trim_prefix (trim_space m.id) legacy_prefix) provider_prefix

-- strings.ContainsAny(id, " \t\r\n")
abbrev pub is_blank : ℕ → Bool
is_blank c = eqb c b' ' || eqb c b'\t' || eqb c b'\r' || eqb c b'\n'

abbrev pub has_negative : RemoteModel → Bool
has_negative m = is_negative m.context || is_negative m.output || is_negative m.gateway_output

-- Of budgets that are not negative.
abbrev pub exceeds_context : RemoteModel → Bool
exceeds_context m =
    ltb 0 (to_ℕ m.context)
    && not (m.context_source == "fallback")
    && (ltb (to_ℕ m.context) (to_ℕ m.output) || ltb (to_ℕ m.context) (to_ℕ m.gateway_output))

-- After the check that no number is negative.
unfoldable pub to_def : String → RemoteModel → ModelDef
to_def id m = record {
  id = id;
  display = if m.display == "" then id else m.display;
  description = m.description;
  context = to_ℕ m.context;
  output = to_ℕ m.output;
  output_source = m.output_source;
  context_source = m.context_source;
  gateway_output = to_ℕ m.gateway_output;
  vision = m.vision;
  efforts = m.efforts;
}

abbrev pub Names : Type 0
Names = GoMap String Bool

abbrev pub refuses_id : Names → Names → String → Bool
refuses_id seen shorts id =
    id == ""
    || any_char is_blank id
    || is_some (seen.get (to_lower id))
    || is_some (shorts.get (short_name id))

-- One round of the loop up to its `append`.
unfoldable pub check_model : Names → Names → RemoteModel → Result RosterError ModelDef
check_model seen shorts m = do
  fails_if (refuses_id seen shorts (clean_id m)) (invalid_id (clean_id m))
  fails_if (has_negative m) (negative_budget (clean_id m))
  fails_if (exceeds_context m) (output_exceeds_context (clean_id m))
  ok (to_def (clean_id m) m)

unfoldable pub check_models : Names → Names → List RemoteModel → Result RosterError (List ModelDef)
check_models seen shorts [] = ok []
check_models seen shorts (m ∷ ms) = do
  d ← check_model seen shorts m
  ds ←
      check_models (put str_dec (to_lower (clean_id m)) true seen)
        (put str_dec (short_name (clean_id m)) true shorts) ms
  ok (d ∷ ds)

abbrev schema_is_known : ℤ → Bool
schema_is_known (pos n) = eqb n 1
schema_is_known (negsuc n) = false

unfoldable pub parse_file : RemoteModelFile → Result RosterError (List ModelDef × String)
parse_file doc = do
  fails_if (not (schema_is_known doc.schema_version)) (unsupported_schema doc.schema_version)
  fails_if (eqb (length doc.models) 0 || ltb 300 (length doc.models))
      (invalid_count (length doc.models))
  defs ← check_models empty_map empty_map doc.models
  ok (defs, doc.source_cli_version)

unfoldable pub parse_models_file :
    Option RemoteModelFile → Result RosterError (List ModelDef × String)
unfolding parse_file
parse_models_file none = err invalid_json
parse_models_file (some doc) = parse_file doc
