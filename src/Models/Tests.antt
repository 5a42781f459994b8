-- ===== src/Models/Tests.antt =====
-- go/models.go and `parseModelsFile` on a small catalog.
use cmdcode_go.Base.{
  ℕ, ◌≤◌, ◌<◌, ◌≡◌, ◌⊎◌, ◌↔◌, refl, true, Option, none, some, [], ◌∷◌, Any, filter, pos, arith,
  trim_space, trim_prefix, to_lower, str_dec, has_prefix, split_last, ends_with, drop_chars,
  any_char, Bool-cases,
}
use cmdcode_go.Models.{
  ModelDef, ModelSnapshot, Selection, Filters, new_snapshot, index_from, short_name,
  parse_model_name, strip_provider, match, allowed, definition,
}
use cmdcode_go.Models.Effort.{
  reasoning_effort, reasoning_effort_sound, reasoning_effort_refuses, IsSendable, IsRefused,
  gateway_effort, gateway_chooses, disables, effort_of, effort_in, has_level, supported,
  supported_efforts,
}
use cmdcode_go.Models.Budget.{max_tokens, explicit_budget, max_tokens-explicit, max_tokens-default}
use cmdcode_go.Models.Index.{Means, match_sound, key_of}
use cmdcode_go.Models.Filtering.{Names, allowed_iff}
use cmdcode_go.Models.Registered.{Told, registered, registered-IsHonest}
use cmdcode_go.Models.Roster.{
  RemoteModel, RemoteModelFile, parse_models_file, parse_file, check_models, check_model, clean_id,
  to_def,
}
use cmdcode_go.Models.Catalog.{IsRoster, FromDocument, parse_models_file-IsRoster, match-roster}

abbrev kimi : ModelDef
kimi = record {
  id = "moon/Kimi";
  display = "Kimi";
  description = "";
  context = 1000;
  output = 500;
  output_source = "";
  context_source = "";
  gateway_output = 400;
  vision = none;
  efforts = "low" ∷ "high" ∷ [];
}

abbrev catalog : ModelSnapshot
catalog = new_snapshot (kimi ∷ [])

abbrev remote : RemoteModel
remote = record {
  id = "cmdcode-go/moon/Kimi";
  display = "Kimi";
  description = "";
  context = pos 1000;
  output = pos 500;
  output_source = "";
  context_source = "";
  vision = none;
  efforts = "low" ∷ "high" ∷ [];
  gateway_output = pos 400;
}

abbrev file : Option RemoteModelFile
file =
    some (record {
      source = "";
      schema_version = pos 1;
      source_cli_version = "1";
      models = remote ∷ [];
    })

program : Unit {0}
unfolding match definition parse_model_name strip_provider short_name new_snapshot index_from
    to_lower trim_space reasoning_effort gateway_effort gateway_chooses disables effort_of effort_in
    has_level supported supported_efforts explicit_budget max_tokens trim_prefix parse_models_file
    parse_file check_models check_model clean_id to_def str_dec has_prefix split_last ends_with
    drop_chars any_char Bool-cases
program = tt

abbrev asked : Selection
asked = record { base = "moon/kimi"; suffix = some "HIGH" }

abbrev unknown : Selection
unknown = record { base = "other"; suffix = some "high" }

match_sound_example :
    (n : ℕ) × (d : ModelDef) × Means (kimi ∷ []) (key_of "cmdcode-go/kimi(high)") n d
    × (d.id ≡ "moon/Kimi")
unfolding program
match_sound_example = match_sound (kimi ∷ []) "cmdcode-go/kimi(high)" "moon/Kimi" refl

parse_models_file-IsRoster_example : IsRoster (kimi ∷ []) × FromDocument file (kimi ∷ [])
unfolding program
parse_models_file-IsRoster_example = parse_models_file-IsRoster file (kimi ∷ []) "1" refl

match-roster_example : match (new_snapshot (kimi ∷ [])) "MOON/kimi" ≡ some "moon/Kimi"
unfolding program
match-roster_example = match-roster file (kimi ∷ []) "1" "MOON/kimi" 0 kimi refl refl refl

abbrev denies : Filters
denies = record { models = "kimi" ∷ []; disable_models = "kimi(low)" ∷ [] }

allowed_iff_example : (allowed catalog "moon/Kimi" denies ≡ true) ↔ (
    (¬ Any (Names catalog "moon/Kimi") denies.disable_models)
    × ((denies.models ≡ []) ⊎ Any (Names catalog "moon/Kimi") denies.models))
allowed_iff_example = allowed_iff catalog "moon/Kimi" denies

registered-IsHonest_example :
    Told (filter (λ d. allowed catalog d.id denies) catalog.defs) (registered catalog denies)
registered-IsHonest_example = registered-IsHonest catalog denies

reasoning_effort_sound_example : IsSendable catalog asked (some "low") "high"
unfolding program
reasoning_effort_sound_example = reasoning_effort_sound catalog asked (some "low") "high" refl

reasoning_effort_refuses_example :
    IsRefused catalog unknown none (record { level = "high"; model = "other" })
unfolding program
reasoning_effort_refuses_example =
    reasoning_effort_refuses catalog unknown none (record { level = "high"; model = "other" }) refl

max_tokens-explicit_example :
    (((kimi.gateway_output ≡ 0) ⊎ (450 ≤ kimi.gateway_output))
      × (max_tokens catalog (some (pos 450)) none "moon/Kimi" ≡ 450))
    ⊎ ((0 < kimi.gateway_output)
        × (kimi.gateway_output < 450)
        × (max_tokens catalog (some (pos 450)) none "moon/Kimi" ≡ kimi.gateway_output))
unfolding program
max_tokens-explicit_example =
    max_tokens-explicit catalog (some (pos 450)) none "moon/Kimi" 450 kimi refl refl

max_tokens-default_example :
    (max_tokens catalog none none "moon/Kimi" ≤ 64000)
    × (max_tokens catalog none none "moon/Kimi" ≤ kimi.output)
unfolding program
max_tokens-default_example =
    max_tokens-default catalog none none "moon/Kimi" kimi refl refl (omega arith) (λ e. cc)
