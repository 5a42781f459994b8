-- ===== src/Config/Tests.antt =====
-- A configuration that is updated, and the sources of a key.
use cmdcode_go.Base.{
  String, ◌==◌, ◌≡◌, ◌↔◌, refl, false, none, some, [], ◌∷◌, any_char, trim_space, trim_right_of,
  ends_with, if◌then◌else◌,
}
use cmdcode_go.Config.{
  PluginConfig, Formats, Node, fields_of, scalar, sequence, no_config, update, decode_config,
  decode_fields, read_items, validate_config, bad_url,
}
use cmdcode_go.Config.Sources.{
  Machine, resolve_api_key, resolve_base_url, read_cli_auth_file, first_key,
}
use cmdcode_go.Config.Updated.{UpdateOutcome, update_iff}
use cmdcode_go.Config.Precedence.{
  first_offer, key_offers, resolve_api_key_first, resolve_base_url-ends,
}

abbrev text_node : String → Node
text_node s = record { kind = scalar; tag = "!!str"; value = s; content = [] }

abbrev formats : Formats
formats = record {
  config_yaml = some;
  base64 = λ s. none;
  document = λ s. fields_of (
      ("api_key", text_node s)
      ∷ ("project_slug", record { kind = scalar; tag = "!!null"; value = ""; content = [] })
      ∷ (
        "models",
        record {
          kind = sequence;
          tag = "!!seq";
          value = "";
          content = record { kind = scalar; tag = "!!str"; value = " kimi " } ∷ [];
        },
      )
      ∷ []);
  decode_text = λ n. some n.value;
  parse_url = λ s. none;
  parse_duration = λ s. none;
}

abbrev before : PluginConfig
before = record no_config { api_key = "old"; project_slug = "slug"; cli_version = "9" }

abbrev after : PluginConfig
after = record no_config { api_key = "new"; models = "kimi" ∷ []; cli_version = "9" }

merges : update formats "new" before ≡ (after, none)
unfolding update decode_config decode_fields read_items validate_config trim_space any_char
merges = refl

refuses :
    update formats "new" (record before { models_url = "ftp" })
    ≡ (record before { models_url = "ftp" }, some (bad_url "models_url"))
unfolding update decode_config decode_fields read_items validate_config trim_space any_char
refuses = refl

update_iff_example :
    (update formats "new" before ≡ (after, none)) ↔ UpdateOutcome formats "new" before after none
update_iff_example = update_iff formats "new" before after none

abbrev machine : Machine
machine = record {
  env = λ name. if name == "COMMANDCODE_BASE_URL" then "https://a.b//" else "";
  home = some "/root";
  join_path = λ ps. "path";
  read_file = λ path. some " k ";
  parse_auth = λ raw. some (record { api_key = ""; key = raw });
}

from_file : resolve_api_key machine before (λ name. "") ≡ "old"
unfolding resolve_api_key read_cli_auth_file first_key trim_space
from_file = refl

last_source : resolve_api_key machine no_config (λ name. "") ≡ "k"
unfolding resolve_api_key read_cli_auth_file first_key trim_space
last_source = refl

address : resolve_base_url machine no_config ≡ "https://a.b"
unfolding resolve_base_url trim_space trim_right_of
address = refl

first_of_offers :
    resolve_api_key machine no_config (λ name. "")
    ≡ first_offer (key_offers machine no_config (λ name. ""))
first_of_offers = resolve_api_key_first machine no_config (λ name. "")

no_last_slash : ends_with b'/' (resolve_base_url machine no_config) ≡ false
no_last_slash = resolve_base_url-ends machine no_config
