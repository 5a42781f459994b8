-- ===== src/Config/Sources.antt =====
-- go/config.go: where a request's API key, address and headers come from. A Go map is the function
-- that gives "" for a missing key; the environment, the files and their JSON are parameters.
use cmdcode_go.Base.{
  String, ◌==◌, Bool, Option, none, some, List, [], ◌∷◌, ◌++◌, if◌then◌else◌, trim_space,
  trim_right_of,
}
use cmdcode_go.Config.{PluginConfig}

-- The `apiKey` and `api_key` of an `auth.json`.
pub record AuthFile : Type 0 where
  pub api_key : String
  pub key : String

pub record Machine : Type 0 where
  pub env : String → String
  pub home : Option String
  pub join_path : List String → String
  pub read_file : String → Option String
  pub parse_auth : String → Option AuthFile

abbrev pub blank : String → Bool
blank s = trim_space s == ""

-- `if v := strings.TrimSpace(s); v != "" { return v }`, and what follows
abbrev pub trimmed_or : String → String → String
trimmed_or s rest = if blank s then rest else trim_space s

-- `if strings.TrimSpace(s) != "" { return s }`, and what follows
abbrev pub given_or : String → String → String
given_or s rest = if blank s then rest else s

abbrev config_dir_file : Machine → List String
config_dir_file w =
    let dir = trim_space (w.env "COMMANDCODE_CONFIG_DIR") in
    if dir == "" then [] else w.join_path (dir ∷ "auth.json" ∷ []) ∷ []

abbrev home_files : Machine → Option String → List String
home_files w none = []
home_files w (some home) =
    w.join_path (home ∷ ".commandcode" ∷ "auth.json" ∷ [])
    ∷ w.join_path (home ∷ ".config" ∷ "commandcode" ∷ "auth.json" ∷ [])
    ∷ []

abbrev pub auth_paths : Machine → List String
auth_paths w = config_dir_file w ++ home_files w w.home

abbrev pub parsed_auth : Machine → Option String → Option AuthFile
parsed_auth w none = none
parsed_auth w (some raw) = w.parse_auth raw

abbrev pub key_or : Option AuthFile → String → String
key_or none rest = rest
key_or (some auth) rest = trimmed_or auth.api_key (trimmed_or auth.key rest)

unfoldable pub first_key : Machine → List String → String
first_key w [] = ""
first_key w (path ∷ paths) = key_or (parsed_auth w (w.read_file path)) (first_key w paths)

unfoldable pub read_cli_auth_file : Machine → String
unfolding first_key
read_cli_auth_file w = first_key w (auth_paths w)

unfoldable pub resolve_api_key : Machine → PluginConfig → (String → String) → String
unfolding read_cli_auth_file
resolve_api_key w cfg attrs = trimmed_or (attrs "api_key") (
    given_or cfg.api_key (
      trimmed_or (w.env "COMMANDCODE_KEY") (
        trimmed_or (w.env "COMMANDCODE_API_KEY")
          (trimmed_or (w.env "COMMAND_CODE_API_KEY") (read_cli_auth_file w)))))

unfoldable pub resolve_base_url : Machine → PluginConfig → String
resolve_base_url w cfg =
    if blank cfg.base_url
    then (let base = trim_space (w.env "COMMANDCODE_BASE_URL") in
        if base == "" then "https://api.commandcode.ai" else trim_right_of b'/' base)
    else trim_right_of b'/' cfg.base_url

unfoldable pub cli_version : Machine → PluginConfig → String
cli_version w cfg = given_or cfg.cli_version (trimmed_or (w.env "COMMANDCODE_CLI_VERSION") "1.47.1")

unfoldable pub project_slug : PluginConfig → String
project_slug cfg = given_or cfg.project_slug "cliproxyapi"

unfoldable pub permission_mode : PluginConfig → String
permission_mode cfg = given_or cfg.permission "standard"
