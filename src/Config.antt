-- ===== src/Config.antt =====
-- go/config.go: the configuration, its decoding and its checks. A loop over a Go map is written in one
-- order of its keys; the order decides only which of several errors is reported.
pub mod Sources
pub mod Merged
pub mod Valid
pub mod Updated
pub mod Precedence
mod Tests
use cmdcode_go.Base.{
  ℕ, String, ◌==◌, ◌≡◌, Bool, true, false, not, ◌&&◌, ◌||◌, Option, none, some, List, [], ◌∷◌, ◌++◌,
  eqb, if◌then◌else◌, is_empty, trim_space, any_char, is_some, split_all, Result, ok, err, ◌>>=◌,
  ◌>>◌, fails_if, ℤ,
}

pub record PluginConfig : Type 0 where
  pub api_key : String
  pub base_url : String
  pub cli_version : String
  pub project_slug : String
  pub permission : String
  pub models : List String
  pub disable_models : List String
  pub models_url : String
  pub models_file : String
  pub models_refresh_interval : String

abbrev pub no_config : PluginConfig
no_config = record {
  api_key = "";
  base_url = "";
  cli_version = "";
  project_slug = "";
  permission = "";
  models = [];
  disable_models = [];
  models_url = "";
  models_file = "";
  models_refresh_interval = "";
}

-- A node of a YAML document as `yaml.v3` gives it.
pub data Kind : Type 0 where
  scalar sequence mapping alias : Kind

pub record Item : Type 0 where
  pub kind : Kind
  pub tag : String
  pub value : String

pub record Node : Type 0 where
  pub kind : Kind
  pub tag : String
  pub value : String
  pub content : List Item

-- What `net/url` says of a text.
pub record Url : Type 0 where
  pub scheme : String
  pub host : String
  pub has_user : Bool
  pub fragment : String

-- What a request holds before its fields are read.
pub data Document : Type 0 where
  invalid_yaml several_documents no_mapping duplicate_keys : Document
  fields_of : List (String × Node) → Document

-- What the package calls: the JSON envelope, base64, YAML, URLs and durations.
pub record Formats : Type 0 where
  pub config_yaml : String → Option String
  pub base64 : String → Option String
  pub document : String → Document
  pub decode_text : Node → Option String
  pub parse_url : String → Option Url
  pub parse_duration : String → Option ℤ

pub data ConfigError : Type 0 where
  bad_envelope bad_yaml one_document not_a_mapping repeated_key : ConfigError
  not_a_string undecodable empty_item not_a_list bad_url : String → ConfigError
  bad_interval header_newline : ConfigError

abbrev pub find_node : String → List (String × Node) → Option Node
find_node key [] = none
find_node key ((k, n) ∷ rest) = let other = find_node key rest in if k == key then some n else other

abbrev pub is_scalar : Kind → Bool
is_scalar scalar = true
is_scalar sequence = false
is_scalar mapping = false
is_scalar alias = false

abbrev pub is_sequence : Kind → Bool
is_sequence scalar = false
is_sequence sequence = true
is_sequence mapping = false
is_sequence alias = false

abbrev pub decoded_text : String → Option String → Result ConfigError String
decoded_text key none = err (undecodable key)
decoded_text key (some s) = ok s

-- One scalar: what it was, cleared by null, or a string.
abbrev pub scalar_field : Formats → String → Option Node → String → Result ConfigError String
scalar_field f key none old = ok old
scalar_field f key (some n) old =
    if n.tag == "!!null"
    then ok ""
    else if not (is_scalar n.kind) || not (n.tag == "!!str")
    then err (not_a_string key)
    else decoded_text key (f.decode_text n)

-- strings.Split(value, ","), each part trimmed and kept if something is left
abbrev pub keep_item : String → List String → List String
keep_item s rest = let item = trim_space s in if item == "" then rest else item ∷ rest

abbrev pub trimmed_item : String → Item → Result ConfigError String
trimmed_item key i =
    if not (is_scalar i.kind) || not (i.tag == "!!str") || trim_space i.value == ""
    then err (empty_item key)
    else ok (trim_space i.value)

unfoldable pub read_items : String → List Item → Result ConfigError (List String)
read_items key [] = ok []
read_items key (i ∷ is) = do item ← trimmed_item key i; items ← read_items key is; ok (item ∷ items)

abbrev pub split_items : List String → List String
split_items [] = []
split_items (s ∷ ss) = keep_item s (split_items ss)

-- One list: what it was, cleared by null, a text with commas, or a sequence of texts.
abbrev pub list_field : String → Option Node → List String → Result ConfigError (List String)
list_field key none old = ok old
list_field key (some n) old =
    if n.tag == "!!null"
    then ok []
    else if is_scalar n.kind && (n.tag == "!!str")
    then ok (split_items (split_all b',' n.value))
    else if is_sequence n.kind
    then read_items key n.content
    else err (not_a_list key)

unfoldable pub decode_fields :
    Formats → List (String × Node) → PluginConfig → Result ConfigError PluginConfig
unfolding read_items
decode_fields f fields c = do
  api_key ← scalar_field f "api_key" (find_node "api_key" fields) c.api_key
  base_url ← scalar_field f "base_url" (find_node "base_url" fields) c.base_url
  cli_version ← scalar_field f "cli_version" (find_node "cli_version" fields) c.cli_version
  project_slug ← scalar_field f "project_slug" (find_node "project_slug" fields) c.project_slug
  permission ← scalar_field f "permission_mode" (find_node "permission_mode" fields) c.permission
  models_url ← scalar_field f "models_url" (find_node "models_url" fields) c.models_url
  models_file ← scalar_field f "models_file" (find_node "models_file" fields) c.models_file
  interval ←
      scalar_field f "models_refresh_interval" (find_node "models_refresh_interval" fields)
        c.models_refresh_interval
  models ← list_field "models" (find_node "models" fields) c.models
  disable_models ← list_field "disable_models" (find_node "disable_models" fields) c.disable_models
  ok (record {
    api_key = api_key;
    base_url = base_url;
    cli_version = cli_version;
    project_slug = project_slug;
    permission = permission;
    models = models;
    disable_models = disable_models;
    models_url = models_url;
    models_file = models_file;
    models_refresh_interval = interval;
  })

abbrev http_url : Option Url → Bool
http_url none = false
http_url (some u) =
    (u.scheme == "http" || u.scheme == "https")
    && not (u.host == "")
    && not u.has_user
    && (u.fragment == "")

-- Empty, or an HTTP(S) URL without credentials or fragment.
abbrev pub accepts_url : Formats → String → Bool
accepts_url f raw = raw == "" || http_url (f.parse_url raw)

abbrev pub accepts_interval : Formats → String → Bool
accepts_interval f s = s == "" || is_some (f.parse_duration s)

abbrev pub has_newline : String → Bool
has_newline = any_char (λ c. eqb c b'\r' || eqb c b'\n')

unfoldable pub validate_config : Formats → PluginConfig → Result ConfigError (Unit {0})
validate_config f c = do
  fails_if (not (accepts_url f c.base_url)) (bad_url "base_url")
  fails_if (not (accepts_url f c.models_url)) (bad_url "models_url")
  fails_if (not (accepts_interval f c.models_refresh_interval)) bad_interval
  fails_if (has_newline c.api_key || has_newline c.cli_version || has_newline c.project_slug)
      header_newline

abbrev pub checked : Formats → PluginConfig → Result ConfigError PluginConfig
checked f next = validate_config f next >> ok next

abbrev pub decode_document : Formats → PluginConfig → Document → Result ConfigError PluginConfig
decode_document f previous invalid_yaml = err bad_yaml
decode_document f previous several_documents = err one_document
decode_document f previous no_mapping = err not_a_mapping
decode_document f previous duplicate_keys = err repeated_key
decode_document f previous (fields_of fields) = decode_fields f fields previous >>= checked f

abbrev pub unbase64 : Option String → String → String
unbase64 none text = text
unbase64 (some decoded) text = decoded

abbrev pub decode_text_of : Formats → PluginConfig → Option String → Result ConfigError PluginConfig
decode_text_of f previous none = err bad_envelope
decode_text_of f previous (some text) =
    if text == ""
    then ok previous
    else decode_document f previous (f.document (unbase64 (f.base64 text) text))

unfoldable pub decode_config : Formats → String → PluginConfig → Result ConfigError PluginConfig
unfolding decode_fields validate_config
decode_config f request previous =
    if is_empty request then ok previous else decode_text_of f previous (f.config_yaml request)

abbrev pub stored :
    PluginConfig → Result ConfigError PluginConfig → PluginConfig × Option ConfigError
stored old (err e) = (old, some e)
stored old (ok next) = (next, none)

-- ConfigStore.Update: the store's value afterwards, which is also what is returned, or the error.
unfoldable pub update : Formats → String → PluginConfig → PluginConfig × Option ConfigError
update f request value = stored value (decode_config f request value)
