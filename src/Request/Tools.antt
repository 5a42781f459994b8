-- ===== src/Request/Tools.antt =====
-- go/request.go: the tools of a request, their schemas, and the directive to use none.
use cmdcode_go.Base.{
  String, ◌==◌, ◌≡◌, refl, ◌⊎◌, inl, inr, Bool, true, false, not, ◌&&◌, ◌||◌, Option, none, some,
  List, [], ◌∷◌, if◌then◌else◌, trim_space, to_lower, has_prefix, is_empty, Result, ok, err, ◌>>=◌,
  ok_inj, Bool-cases, arith, eq_iff, sym, ap,
}
use cmdcode_go.Wire.{Value, str, obj, get_field}
use cmdcode_go.Request.{text_value}

pub record ChatTool : Type 0 where
  pub type : String
  pub name : String
  pub description : String
  pub parameters : String

-- Fields with their raw values.
abbrev pub RawFields : Type 0
RawFields = List (String × String)

-- What the schemas need of `encoding/json`: a text as a string, as an object of raw fields, without
-- its blanks, and the text of an object.
pub record SchemaCodec : Type 0 where
  pub decode_string : String → Option String
  pub decode_object : String → Option RawFields
  pub compact : String → Option String
  pub encode_object : RawFields → String

pub data SchemaError : Type 0 where
  invalid_encoding expected_object requires_object : SchemaError
  not_compactable : SchemaError

abbrev pub empty_schema : String
empty_schema = "{\"type\":\"object\",\"properties\":{}}"

abbrev pub raw_field : String → RawFields → Option String
raw_field key [] = none
raw_field key ((k, v) ∷ fs) = let rest = raw_field key fs in if k == key then some v else rest

abbrev pub compacted : Option String → Result SchemaError String
compacted none = err not_compactable
compacted (some s) = ok s

abbrev pub is_object_type : Option String → Bool
is_object_type none = false
is_object_type (some s) = s == "object"

abbrev pub typed : SchemaCodec → String → RawFields → Option String → Result SchemaError String
typed c text fields none = ok (c.encode_object (("type", "\"object\"") ∷ fields))
typed c text fields (some raw) =
    if is_object_type (c.decode_string raw) then compacted (c.compact text) else err requires_object

abbrev pub of_fields : SchemaCodec → String → Option RawFields → Result SchemaError String
of_fields c text none = err expected_object
of_fields c text (some fields) = typed c text fields (raw_field "type" fields)

abbrev pub object_schema : SchemaCodec → String → Result SchemaError String
object_schema c text = of_fields c text (c.decode_object text)

abbrev pub unwrapped : SchemaCodec → Option String → Result SchemaError String
unwrapped c none = err invalid_encoding
unwrapped c (some inner) =
    if has_prefix (trim_space inner) "{"
    then object_schema c (trim_space inner)
    else err expected_object

abbrev pub is_absent : String → Bool
is_absent text = is_empty text || text == "null"

unfoldable pub normalize_schema : SchemaCodec → String → Result SchemaError String
normalize_schema c raw =
    let text = trim_space raw in
    if is_absent text
    then ok empty_schema
    else if has_prefix text "\""
    then unwrapped c (c.decode_string text)
    else object_schema c text

pub record WireTool : Type 0 where
  pub name : String
  pub description : String
  pub input_schema : String

pub data ToolError : Type 0 where
  tool_schema : String → SchemaError → ToolError

abbrev pub is_skipped : ChatTool → Bool
is_skipped t = not (t.type == "") && not (t.type == "function") || t.name == ""

abbrev pub named_error : String → Result SchemaError String → Result ToolError String
named_error name (ok s) = ok s
named_error name (err e) = err (tool_schema name e)

unfoldable pub to_wire_tools : SchemaCodec → List ChatTool → Result ToolError (List WireTool)
unfolding normalize_schema
to_wire_tools c [] = ok []
to_wire_tools c (t ∷ ts) =
    let rest = to_wire_tools c ts in
    if is_skipped t then rest else (do
      schema ← named_error t.name (normalize_schema c t.parameters)
      tools ← rest
      ok (record { name = t.name; description = t.description; input_schema = schema } ∷ tools))

abbrev pub names_none : String → Bool
names_none s = to_lower (trim_space s) == "none"

unfoldable pub tool_choice_none : Value → Bool
tool_choice_none (str s) = names_none s
tool_choice_none (obj fs) = names_none (text_value (get_field "type" fs))
tool_choice_none _ = false

-- What a schema is sent as.
pub data IsObjectSchema (c : SchemaCodec) (text out : String) : Type 0 where
  kept :
      (fields : RawFields) (raw : String)
      → c.decode_object text ≡ some fields
      → raw_field "type" fields ≡ some raw
      → c.decode_string raw ≡ some "object"
      → c.compact text ≡ some out
      → IsObjectSchema c text out
  completed :
      (fields : RawFields)
      → c.decode_object text ≡ some fields
      → raw_field "type" fields ≡ none
      → out ≡ c.encode_object (("type", "\"object\"") ∷ fields)
      → IsObjectSchema c text out

object_type : (o : Option String) → is_object_type o ≡ true → o ≡ some "object"
object_type none h = cc
object_type (some s) h = ap some ((eq_iff s "object").0 h)

compacted_sound : (o : Option String) (out : String) → compacted o ≡ ok out → o ≡ some out
compacted_sound none out h = cc
compacted_sound (some s) out h = ap some (ok_inj h)

module _ (c : SchemaCodec) where
  typed_sound :
      (text out : String) (fields : RawFields) (o : Option String)
      → c.decode_object text ≡ some fields
      → raw_field "type" fields ≡ o
      → typed c text fields o ≡ ok out
      → IsObjectSchema c text out
  typed_sound text out fields none d q h = completed fields d q (sym (ok_inj h))
  typed_sound text out fields (some raw) d q h =
      kept fields raw d q (ground (arith, object_type (c.decode_string raw)))
        (ground (arith, compacted_sound (c.compact text) out))

  fields_sound :
      (text out : String) (o : Option RawFields)
      → c.decode_object text ≡ o
      → of_fields c text o ≡ ok out
      → IsObjectSchema c text out
  fields_sound text out none q h = cc
  fields_sound text out (some fields) q h =
      typed_sound text out fields (raw_field "type" fields) q refl h

  -- The object that a schema is read from: the text itself, or the text that it encodes.
  abbrev pub IsRead : String → String → Type 0
  IsRead text object =
      (object ≡ text)
      ⊎ ((inner : String) × (c.decode_string text ≡ some inner) × (object ≡ trim_space inner))

  unwrapped_sound :
      (text out : String) (o : Option String)
      → c.decode_string text ≡ o
      → unwrapped c o ≡ ok out
      → (object : String) × IsRead text object × IsObjectSchema c object out
  unwrapped_sound text out none q h = cc
  unwrapped_sound text out (some inner) q h =
      elim (Bool-cases (has_prefix (trim_space inner) "{")) [
        | inl y ↦ (
          trim_space inner,
          inr (inner, q, refl),
          fields_sound (trim_space inner) out (c.decode_object (trim_space inner)) refl
              (ground arith),
        )
        | inr n ↦ absurd (ground arith)
      ]

  -- A schema that is accepted is sent as the client's own object, compacted if it says that its type
  -- is object and completed with that type if it says none; the schema without constraints is sent
  -- only for one that is absent or null.
  pub normalize_schema_sound :
      (raw out : String)
      → normalize_schema c raw ≡ ok out
      → ((is_absent (trim_space raw) ≡ true) × (out ≡ empty_schema))
        ⊎ ((object : String) × IsRead (trim_space raw) object × IsObjectSchema c object out)
  unfolding normalize_schema
  normalize_schema_sound raw out h =
      let text = trim_space raw in
      elim (Bool-cases (is_absent text)) [
        | inl y ↦ inl (y, ground arith)
        | inr n ↦ elim (Bool-cases (has_prefix text "\"")) [
          | inl q ↦ inr (unwrapped_sound text out (c.decode_string text) refl (ground arith))
          | inr m ↦
              inr (text, inl refl, fields_sound text out (c.decode_object text) refl (ground arith))
        ]
      ]
