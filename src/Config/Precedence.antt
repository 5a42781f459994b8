-- ===== src/Config/Precedence.antt =====
-- Which of the places of an API key, an address or a version wins.
use cmdcode_go.Base.{
  String, ◌≡◌, inl, inr, refl, ap, ◌∙◌, false, Option, none, some, List, [], ◌∷◌, ◌++◌,
  if◌then◌else◌, Bool-cases, trim_space, ends_with, trim_right_of-ends,
}
use cmdcode_go.Config.{PluginConfig}
use cmdcode_go.Config.Sources.{
  Machine, AuthFile, blank, trimmed_or, key_or, parsed_auth, auth_paths, first_key,
  read_cli_auth_file, resolve_api_key, resolve_base_url,
}

-- What a place offers: nothing if it is blank, else the given text.
abbrev offer : String → String → Option String
offer s v = if blank s then none else some v

abbrev trimmed : String → Option String
trimmed s = offer s (trim_space s)

abbrev pub first_offer : List (Option String) → String
first_offer [] = ""
first_offer (none ∷ os) = first_offer os
first_offer (some s ∷ os) = s

abbrev file_offers : Option AuthFile → List (Option String)
file_offers none = []
file_offers (some a) = trimmed a.api_key ∷ trimmed a.key ∷ []

abbrev path_offers : Machine → List String → List (Option String)
path_offers w [] = []
path_offers w (path ∷ paths) = file_offers (parsed_auth w (w.read_file path)) ++ path_offers w paths

abbrev pub key_offers : Machine → PluginConfig → (String → String) → List (Option String)
key_offers w cfg attrs =
    trimmed (attrs "api_key")
    ∷ offer cfg.api_key cfg.api_key
    ∷ trimmed (w.env "COMMANDCODE_KEY")
    ∷ trimmed (w.env "COMMANDCODE_API_KEY")
    ∷ trimmed (w.env "COMMAND_CODE_API_KEY")
    ∷ path_offers w (auth_paths w)

offered :
    (s v : String) {rest : String} (os : List (Option String))
    → rest ≡ first_offer os
    → (if blank s then rest else v) ≡ first_offer (offer s v ∷ os)
offered s v os h = elim (Bool-cases (blank s)) [ inl y ↦ simp y h | inr n ↦ simp n refl ]

trimmed_first :
    (s : String) {rest : String} (os : List (Option String))
    → rest ≡ first_offer os
    → trimmed_or s rest ≡ first_offer (trimmed s ∷ os)
trimmed_first s = offered s (trim_space s)

key_or-offers :
    (a : Option AuthFile) (os : List (Option String))
    → key_or a (first_offer os) ≡ first_offer (file_offers a ++ os)
key_or-offers none os = refl
key_or-offers (some a) os =
    trimmed_first a.api_key (trimmed a.key ∷ os) (trimmed_first a.key os refl)

first_key-offers :
    (w : Machine) (paths : List String) → first_key w paths ≡ first_offer (path_offers w paths)
unfolding first_key
first_key-offers w [] = refl
first_key-offers w (path ∷ paths) =
    ap (key_or (parsed_auth w (w.read_file path))) (first_key-offers w paths)
    ∙ key_or-offers (parsed_auth w (w.read_file path)) (path_offers w paths)

-- `resolveAPIKey` gives the first offer among, in this order: the key of the selected auth, the
-- configured key as it is written, three environment variables, and the two fields of each readable
-- auth file. A blank text is no offer, and all but the configured key are trimmed.
pub resolve_api_key_first :
    (w : Machine) (cfg : PluginConfig) (attrs : String → String)
    → resolve_api_key w cfg attrs ≡ first_offer (key_offers w cfg attrs)
unfolding resolve_api_key read_cli_auth_file
resolve_api_key_first w cfg attrs = trimmed_first (attrs "api_key") _ (
    offered cfg.api_key cfg.api_key _ (
      trimmed_first (w.env "COMMANDCODE_KEY") _ (
        trimmed_first (w.env "COMMANDCODE_API_KEY") _ (
          trimmed_first (w.env "COMMAND_CODE_API_KEY") (path_offers w (auth_paths w))
            (first_key-offers w (auth_paths w))))))

-- Whatever the configuration and the environment hold, `resolveBaseURL` gives an address without a
-- slash at its end, so that the route put after it is not doubled.
pub resolve_base_url-ends :
    (w : Machine) (cfg : PluginConfig) → ends_with b'/' (resolve_base_url w cfg) ≡ false
unfolding resolve_base_url ends_with
resolve_base_url-ends w cfg = elim (Bool-cases (blank cfg.base_url)) [
  | inl y ↦ elim (Bool-cases (blank (w.env "COMMANDCODE_BASE_URL"))) [
    | inl z ↦ simp (y, z) refl
    | inr z ↦ simp (y, z) (trim_right_of-ends b'/' (trim_space (w.env "COMMANDCODE_BASE_URL")))
  ]
  | inr n ↦ simp n (trim_right_of-ends b'/' cfg.base_url)
]
