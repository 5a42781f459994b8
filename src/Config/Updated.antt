-- ===== src/Config/Updated.antt =====
-- ConfigStore.Update against an independent description of what a request asks for.
use cmdcode_go.Base.{
  String, ◌==◌, ◌≡◌, ◌≢◌, ◌⊎◌, ◌↔◌, inl, inr, refl, sym, ap, subst, ◌∙◌, true, false, Option, none,
  some, List, arith, eq_iff, Bool-cases, is_empty, Result, ok, err, >>=-eq-ok, >>-eq-ok, ok_inj,
}
use cmdcode_go.Config.{
  PluginConfig, Formats, Node, ConfigError, Document, invalid_yaml, several_documents, no_mapping,
  duplicate_keys, fields_of, decode_document, decode_text_of, decode_fields, unbase64,
  decode_config, validate_config, checked, stored, update,
}
use cmdcode_go.Config.Valid.{IsValid, validate_config-ok, validate_config_complete}
use cmdcode_go.Config.Merged.{IsMerged, decode_fields_iff}

-- A document whose fields change the configuration into one that passes the checks.
pub record Asks (f : Formats) (text : String) (old new : PluginConfig) : Type 0 where
  pub fields : List (String × Node)
  pub document : f.document (unbase64 (f.base64 text) text) ≡ fields_of fields
  pub merged : IsMerged f fields old new
  pub valid : IsValid f new

-- An empty request or an empty text asks for nothing; any other text for what its document says.
abbrev pub Updated : Formats → String → PluginConfig → PluginConfig → Type 0
Updated f request old new =
    ((is_empty request ≡ true) × (new ≡ old))
    ⊎ ((text : String) × (is_empty request ≡ false)
        × (f.config_yaml request ≡ some text)
        × (((text ≡ "") × (new ≡ old)) ⊎ ((text ≢ "") × Asks f text old new)))

abbrev pub UpdateOutcome :
    Formats → String → PluginConfig → PluginConfig → Option ConfigError → Type 0
UpdateOutcome f request old new none = Updated f request old new
UpdateOutcome f request old new (some e) = (new ≡ old) × (decode_config f request old ≡ err e)

checked_iff :
    (f : Formats) (next new : PluginConfig)
    → (checked f next ≡ ok new) ↔ ((next ≡ new) × IsValid f next)
checked_iff f next new = (
  λ h.
      let (u, passed, same) = >>-eq-ok (validate_config f next) (ok next) h in
      (ok_inj same, validate_config-ok f next passed),
  λ (same, valid). simp (validate_config_complete f next valid) (ap ok same),
)

decoded_iff :
    (f : Formats) (old new : PluginConfig) (fields : List (String × Node))
    → (decode_document f old (fields_of fields) ≡ ok new)
      ↔ (IsMerged f fields old new × IsValid f new)
decoded_iff f old new fields = (
  λ h.
      let (next, read, passed) = >>=-eq-ok (decode_fields f fields old) _ h in
      let (same, valid) = (checked_iff f next new).0 passed in
      ((decode_fields_iff f fields old new).0 (read ∙ ap ok same), subst (IsValid f) same valid),
  λ (merged, valid).
      simp ((decode_fields_iff f fields old new).1 merged)
        ((checked_iff f new new).1 (refl, valid)),
)

decode_document_iff :
    (f : Formats) (old new : PluginConfig) (d : Document)
    → (decode_document f old d ≡ ok new) ↔ (
        (fields : List (String × Node)) × (d ≡ fields_of fields)
        × IsMerged f fields old new
        × IsValid f new)
decode_document_iff f old new d = (
  elim d
      as (λ x.
        decode_document f old x ≡ ok new
        → (fields : List (String × Node)) × (x ≡ fields_of fields)
          × IsMerged f fields old new
          × IsValid f new) [
            | invalid_yaml ↦ λ h. cc
            | several_documents ↦ λ h. cc
            | no_mapping ↦ λ h. cc
            | duplicate_keys ↦ λ h. cc
            | fields_of fields ↦ λ h.
                let (merged, valid) = (decoded_iff f old new fields).0 h in
                (fields, refl, merged, valid)
          ],
  λ (fields, is, merged, valid). simp is ((decoded_iff f old new fields).1 (merged, valid)),
)

text_iff :
    (f : Formats) (old new : PluginConfig) (text : String)
    → (decode_text_of f old (some text) ≡ ok new)
      ↔ (((text ≡ "") × (new ≡ old)) ⊎ ((text ≢ "") × Asks f text old new))
text_iff f old new text = (
  λ h. elim (Bool-cases (text == "")) [
    | inl y ↦ inl ((eq_iff text "").0 y, ground arith)
    | inr n ↦
        let (fields, document, merged, valid) =
          (decode_document_iff f old new (f.document (unbase64 (f.base64 text) text))).0
            (ground arith) in
        inr (
          ground (arith, eq_iff text ""),
          record { fields = fields; document = document; merged = merged; valid = valid },
        )
  ],
  λ h. elim h [
    | inl (nothing, same) ↦ simp ((eq_iff text "").1 nothing) (ap ok (sym same))
    | inr (something, asks) ↦
        let unempty : (text == "") ≡ false = ground (arith, eq_iff text "") in
        simp unempty (
          (decode_document_iff f old new _).1 (asks.fields, asks.document, asks.merged, asks.valid))
  ],
)

some_text :
    (f : Formats) (old new : PluginConfig) (o : Option String)
    → decode_text_of f old o ≡ ok new
    → (text : String) × (o ≡ some text) × (decode_text_of f old (some text) ≡ ok new)
some_text f old new none h = cc
some_text f old new (some text) h = (text, refl, h)

decode_config_iff :
    (f : Formats) (request : String) (old new : PluginConfig)
    → (decode_config f request old ≡ ok new) ↔ Updated f request old new
unfolding decode_config
decode_config_iff f request old new = (
  λ h. elim (Bool-cases (is_empty request)) [
    | inl y ↦ inl (y, ground arith)
    | inr n ↦
        let (text, there, read) = some_text f old new (f.config_yaml request) (ground arith) in
        inr (text, n, there, (text_iff f old new text).0 read)
  ],
  λ h. elim h [
    | inl (y, same) ↦ simp y (ap ok (sym same))
    | inr (text, n, there, rest) ↦ simp (n, there) ((text_iff f old new text).1 rest)
  ],
)

stored-none :
    (old new : PluginConfig) (r : Result ConfigError PluginConfig)
    → (stored old r ≡ (new, none)) ↔ (r ≡ ok new)
stored-none old new (err e) = (λ h. let x = ap (λ p. p.1) h in cc, λ h. cc)
stored-none old new (ok next) = (λ h. ap (λ p. ok p.0) h, λ h. ap (λ c. (c, none)) (ok_inj h))

stored-some :
    (old new : PluginConfig) (e : ConfigError) (r : Result ConfigError PluginConfig)
    → (stored old r ≡ (new, some e)) ↔ ((new ≡ old) × (r ≡ err e))
stored-some old new e (err e') = (λ h. (sym (ap (λ p. p.0) h), cc), λ (same, h). cc)
stored-some old new e (ok next) = (λ h. let x = ap (λ p. p.1) h in cc, λ (same, h). cc)

-- ConfigStore.Update gives back a configuration and no error exactly if the request asks for nothing
-- and it is the one held before, or the request has one document, each of whose keys is merged into
-- what was held, and the result passes the checks. With an error the store holds what it held before,
-- and the error is that of the decoding. What is held afterwards is what the left side names.
pub update_iff :
    (f : Formats) (request : String) (old new : PluginConfig) (o : Option ConfigError)
    → (update f request old ≡ (new, o)) ↔ UpdateOutcome f request old new o
unfolding update
update_iff f request old new none =
    let (fwd, back) = stored-none old new (decode_config f request old) in
    let (asked, given) = decode_config_iff f request old new in
    (λ h. asked (fwd h), λ u. back (given u))
update_iff f request old new (some e) = stored-some old new e (decode_config f request old)
