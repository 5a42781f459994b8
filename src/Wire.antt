-- ===== src/Wire.antt =====
-- go/response.go and go/request.go: the values that cross the wire. A JSON value is what
-- `encoding/json` decodes into an `any` or encodes from one.
use cmdcode_go.Base.{String, ◌==◌, Bool, Option, none, some, ℤ, if◌then◌else◌}

mutual
  -- A number with a fraction or an exponent keeps its text beside its integer part.
  pub data Value : Type 0 where
    null : Value
    bool : Bool → Value
    int : ℤ → Value
    frac : ℤ → String → Value
    str : String → Value
    arr : Values → Value
    obj : Fields → Value

  pub data Values : Type 0 where
    nil : Values
    cons : Value → Values → Values

  pub data Fields : Type 0 where
    end : Fields
    field : String → Value → Fields → Fields

-- m[key], `none` if the key is absent
unfoldable pub get_field : String → Fields → Option Value
get_field k end = none
get_field k (field j v fs) = let rest = get_field k fs in if j == k then some v else rest

pub record Usage : Type 0 where
  pub input_tokens : ℤ
  pub output_tokens : ℤ
  pub cache_read_tokens : ℤ
  pub cache_write_tokens : ℤ

-- A raw JSON field is its text, empty if it is absent.
pub record WireEvent : Type 0 where
  pub kind : String
  pub text : String
  pub delta : String
  pub tool_name : String
  pub tool_call_id : String
  pub input : String
  pub args : String
  pub finish_reason : String
  pub total_usage : Option Usage
  pub error : Value

-- What the program uses of `encoding/json` on events: decoding a line, `json.Compact` (none if the
-- text is no JSON value) and encoding a value.
pub record Codec : Type 0 where
  pub unmarshal_event : String → Option WireEvent
  pub compact : String → Option String
  pub marshal : Value → String
