-- ===== src/Config/Merged.antt =====
-- What an update does to each key of the configuration, said of the document rather than of the loop.
use cmdcode_go.Base.{
  String, ◌==◌, ◌≡◌, ◌≢◌, ◌⊎◌, ◌↔◌, inl, inr, refl, sym, ap, subst, true, false, ◌&&◌, Option, none,
  some, List, [], arith, eq_iff, Bool-cases, Result, ok, >>=-eq-ok, ok_inj, split_all,
}
use cmdcode_go.Config.{
  PluginConfig, Kind, scalar, sequence, mapping, alias, Formats, Node, ConfigError, find_node,
  scalar_field, list_field, is_scalar, is_sequence, split_items, read_items, decoded_text,
  decode_fields,
}

-- A key that is missing keeps its value, null clears it, and a string sets it.
abbrev pub ScalarMerged : Formats → Option Node → String → String → Type 0
ScalarMerged f none old new = new ≡ old
ScalarMerged f (some n) old new =
    ((n.tag ≡ "!!null") × (new ≡ ""))
    ⊎ ((n.tag ≡ "!!str") × (is_scalar n.kind ≡ true) × (f.decode_text n ≡ some new))

-- The same for a list, which a text with commas or a sequence of texts sets.
abbrev pub ListMerged : String → Option Node → List String → List String → Type 0
ListMerged key none old new = new ≡ old
ListMerged key (some n) old new =
    ((n.tag ≡ "!!null") × (new ≡ []))
    ⊎ ((n.tag ≡ "!!str") × (is_scalar n.kind ≡ true) × (new ≡ split_items (split_all b',' n.value)))
    ⊎ ((n.tag ≢ "!!null") × (is_sequence n.kind ≡ true) × (read_items key n.content ≡ ok new))

pub record IsMerged (f : Formats) (fields : List (String × Node)) (old new : PluginConfig)
    : Type 0 where
  pub api_key : ScalarMerged f (find_node "api_key" fields) old.api_key new.api_key
  pub base_url : ScalarMerged f (find_node "base_url" fields) old.base_url new.base_url
  pub cli_version : ScalarMerged f (find_node "cli_version" fields) old.cli_version new.cli_version
  pub project_slug :
      ScalarMerged f (find_node "project_slug" fields) old.project_slug new.project_slug
  pub permission : ScalarMerged f (find_node "permission_mode" fields) old.permission new.permission
  pub models_url : ScalarMerged f (find_node "models_url" fields) old.models_url new.models_url
  pub models_file : ScalarMerged f (find_node "models_file" fields) old.models_file new.models_file
  pub models_refresh_interval :
      ScalarMerged f
        (find_node "models_refresh_interval" fields)
        old.models_refresh_interval
        new.models_refresh_interval
  pub models : ListMerged "models" (find_node "models" fields) old.models new.models
  pub disable_models :
      ListMerged "disable_models"
        (find_node "disable_models" fields)
        old.disable_models
        new.disable_models

decoded_text-ok :
    (key new : String) (o : Option String) → (decoded_text key o ≡ ok new) ↔ (o ≡ some new)
decoded_text-ok key new none = (λ h. cc, λ h. cc)
decoded_text-ok key new (some s) = (λ h. ap some (ok_inj h), λ h. cc)

tag_is : (n : Node) (t : String) → n.tag ≡ t → (n.tag == t) ≡ true
tag_is n t = (eq_iff n.tag t).1

scalar_field_iff :
    (f : Formats) (key : String) (o : Option Node) (old new : String)
    → (scalar_field f key o old ≡ ok new) ↔ ScalarMerged f o old new
scalar_field_iff f key none old new = (λ h. sym (ok_inj h), λ h. ap ok (sym h))
scalar_field_iff f key (some n) old new = (
  λ h. elim (Bool-cases (n.tag == "!!null")) [
    | inl y ↦ inl ((eq_iff n.tag "!!null").0 y, ground arith)
    | inr m ↦ inr (
      ground (arith, eq_iff n.tag "!!str"),
      ground arith,
      (decoded_text-ok key new (f.decode_text n)).0 (ground arith),
    )
  ],
  λ h. elim h [
    | inl (null, cleared) ↦ simp (tag_is n "!!null" null) (ap ok (sym cleared))
    | inr (text, is_text, decoded) ↦ simp (text, is_text, decoded) refl
  ],
)

sequence-not-scalar : (k : Kind) → is_sequence k ≡ true → is_scalar k ≡ false
sequence-not-scalar scalar h = cc
sequence-not-scalar sequence h = refl
sequence-not-scalar mapping h = refl
sequence-not-scalar alias h = refl

tag_is_not : (n : Node) (t : String) → n.tag ≢ t → (n.tag == t) ≡ false
tag_is_not n t other = ground (arith, eq_iff n.tag t)

list_field_iff :
    (key : String) (o : Option Node) (old new : List String)
    → (list_field key o old ≡ ok new) ↔ ListMerged key o old new
list_field_iff key none old new = (λ h. sym (ok_inj h), λ h. ap ok (sym h))
list_field_iff key (some n) old new = (
  λ h. elim (Bool-cases (n.tag == "!!null")) [
    | inl y ↦ inl ((eq_iff n.tag "!!null").0 y, ground arith)
    | inr m ↦ elim (Bool-cases (is_scalar n.kind && (n.tag == "!!str"))) [
      | inl y ↦ inr (inl (ground (arith, eq_iff n.tag "!!str"), ground arith, ground arith))
      | inr m' ↦ inr (inr (ground (arith, eq_iff n.tag "!!null"), ground arith, ground arith))
    ]
  ],
  λ h. elim h [
    | inl (null, cleared) ↦ simp (tag_is n "!!null" null) (ap ok (sym cleared))
    | inr (inl (text, is_text, items)) ↦ simp (text, is_text) (ap ok (sym items))
    | inr (inr (not_null, is_list, items)) ↦
        simp (tag_is_not n "!!null" not_null, sequence-not-scalar n.kind is_list, is_list) items
  ],
)

abbrev read_scalar : Formats → List (String × Node) → String → String → Result ConfigError String
read_scalar f fields key old = scalar_field f key (find_node key fields) old

restored :
    (f : Formats) (fields : List (String × Node)) (key old new : String)
    → ScalarMerged f (find_node key fields) old new
    → read_scalar f fields key old ≡ ok new
restored f fields key old new = (scalar_field_iff f key (find_node key fields) old new).1

pub decode_fields_iff :
    (f : Formats) (fields : List (String × Node)) (old new : PluginConfig)
    → (decode_fields f fields old ≡ ok new) ↔ IsMerged f fields old new
unfolding decode_fields
decode_fields_iff f fields old new = (
  λ h.
      let (k₁, e₁, h₁) = >>=-eq-ok (read_scalar f fields "api_key" old.api_key) _ h in
      let (k₂, e₂, h₂) = >>=-eq-ok (read_scalar f fields "base_url" old.base_url) _ h₁ in
      let (k₃, e₃, h₃) = >>=-eq-ok (read_scalar f fields "cli_version" old.cli_version) _ h₂ in
      let (k₄, e₄, h₄) = >>=-eq-ok (read_scalar f fields "project_slug" old.project_slug) _ h₃ in
      let (k₅, e₅, h₅) = >>=-eq-ok (read_scalar f fields "permission_mode" old.permission) _ h₄ in
      let (k₆, e₆, h₆) = >>=-eq-ok (read_scalar f fields "models_url" old.models_url) _ h₅ in
      let (k₇, e₇, h₇) = >>=-eq-ok (read_scalar f fields "models_file" old.models_file) _ h₆ in
      let (k₈, e₈, h₈) =
        >>=-eq-ok (read_scalar f fields "models_refresh_interval" old.models_refresh_interval) _
          h₇ in
      let (k₉, e₉, h₉) =
        >>=-eq-ok (list_field "models" (find_node "models" fields) old.models) _ h₈ in
      let (k₀, e₀, same) =
        >>=-eq-ok
          (list_field "disable_models" (find_node "disable_models" fields) old.disable_models) _
          h₉ in
      subst (IsMerged f fields old) (ok_inj same) (record {
        api_key = (scalar_field_iff f "api_key" (find_node "api_key" fields) old.api_key k₁).0 e₁;
        base_url =
            (scalar_field_iff f "base_url" (find_node "base_url" fields) old.base_url k₂).0 e₂;
        cli_version =
            (scalar_field_iff f "cli_version" (find_node "cli_version" fields) old.cli_version k₃).0
              e₃;
        project_slug =
            (scalar_field_iff f "project_slug" (find_node "project_slug" fields) old.project_slug
                k₄).0
              e₄;
        permission =
            (scalar_field_iff f "permission_mode" (find_node "permission_mode" fields)
                old.permission k₅).0
              e₅;
        models_url =
            (scalar_field_iff f "models_url" (find_node "models_url" fields) old.models_url k₆).0
              e₆;
        models_file =
            (scalar_field_iff f "models_file" (find_node "models_file" fields) old.models_file k₇).0
              e₇;
        models_refresh_interval =
            (scalar_field_iff f "models_refresh_interval"
                (find_node "models_refresh_interval" fields) old.models_refresh_interval k₈).0
              e₈;
        models = (list_field_iff "models" (find_node "models" fields) old.models k₉).0 e₉;
        disable_models =
            (list_field_iff "disable_models" (find_node "disable_models" fields) old.disable_models
                k₀).0
              e₀;
      }),
  λ m.
      simp
        (
          restored f fields "api_key" old.api_key new.api_key m.api_key,
          restored f fields "base_url" old.base_url new.base_url m.base_url,
          restored f fields "cli_version" old.cli_version new.cli_version m.cli_version,
          restored f fields "project_slug" old.project_slug new.project_slug m.project_slug,
          restored f fields "permission_mode" old.permission new.permission m.permission,
          restored f fields "models_url" old.models_url new.models_url m.models_url,
          restored f fields "models_file" old.models_file new.models_file m.models_file,
          restored f fields "models_refresh_interval" old.models_refresh_interval
              new.models_refresh_interval m.models_refresh_interval,
          (list_field_iff "models" (find_node "models" fields) old.models new.models).1 m.models,
          (list_field_iff "disable_models" (find_node "disable_models" fields) old.disable_models
                new.disable_models).1
              m.disable_models,
        )
        refl,
)
