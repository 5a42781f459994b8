-- ===== src/Config/Valid.antt =====
-- What `validateConfig` lets through.
use cmdcode_go.Base.{
  ◌≡◌, refl, Bool, true, false, not, ◌||◌, arith, ok, fails_if-ok, fails_if-last, any_char,
}
use cmdcode_go.Config.{
  PluginConfig, Formats, validate_config, accepts_url, accepts_interval, has_newline, no_config,
  bad_url, bad_interval, header_newline,
}

-- Addresses that are empty or plain HTTP(S), an interval that is empty or a duration, and no line
-- break in what becomes a header.
pub record IsValid (f : Formats) (c : PluginConfig) : Type 0 where
  pub base : accepts_url f c.base_url ≡ true
  pub roster : accepts_url f c.models_url ≡ true
  pub interval : accepts_interval f c.models_refresh_interval ≡ true
  pub key_line : has_newline c.api_key ≡ false
  pub version_line : has_newline c.cli_version ≡ false
  pub slug_line : has_newline c.project_slug ≡ false

not-false : (b : Bool) → not b ≡ false → b ≡ true
not-false b h = ground arith

three_false : (a b c : Bool) → (a || b || c) ≡ false → (a ≡ false) × (b ≡ false) × (c ≡ false)
three_false a b c h = ground arith

pub validate_config-ok :
    (f : Formats) (c : PluginConfig) {u : Unit {0}} → validate_config f c ≡ ok u → IsValid f c
unfolding validate_config
validate_config-ok f c h =
    let (base, h1) = fails_if-ok (not (accepts_url f c.base_url)) (bad_url "base_url") _ h in
    let (roster, h2) = fails_if-ok (not (accepts_url f c.models_url)) (bad_url "models_url") _ h1 in
    let (interval, h3) =
      fails_if-ok (not (accepts_interval f c.models_refresh_interval)) bad_interval _ h2 in
    let (key, version, slug) =
      three_false (has_newline c.api_key) (has_newline c.cli_version) (has_newline c.project_slug)
        (fails_if-last _ header_newline h3) in
    record {
      base = not-false _ base;
      roster = not-false _ roster;
      interval = not-false _ interval;
      key_line = key;
      version_line = version;
      slug_line = slug;
    }

pub validate_config_complete :
    (f : Formats) (c : PluginConfig) → IsValid f c → validate_config f c ≡ ok tt
unfolding validate_config
validate_config_complete f c v =
    simp (v.base, v.roster, v.interval, v.key_line, v.version_line, v.slug_line) refl

pub no_config-IsValid : (f : Formats) → IsValid f no_config
unfolding any_char
no_config-IsValid f = record {
  base = refl;
  roster = refl;
  interval = refl;
  key_line = refl;
  version_line = refl;
  slug_line = refl;
}
