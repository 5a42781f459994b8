-- ===== src/Identity/Tests.antt =====
-- `explicitSessionKey` on a request that names its conversation twice.
use cmdcode_go.Base.{
  ◌≡◌, ◌↔◌, refl, none, some, [], ◌∷◌, to_lower, trim_space, any_char, is_control,
}
use cmdcode_go.Wire.{str, field, end, get_field}
use cmdcode_go.Session.{Key}
use cmdcode_go.Identity.{
  ExecutorRequest, Json, explicit_session_key, valid_session_value, object_fields, add, read,
}
use cmdcode_go.Identity.Agreed.{Names, explicit_session_key_iff}

abbrev json : Json
json = record { members = λ raw. some (("session_id", raw) ∷ []); decode = λ raw. some (str raw) }

abbrev request : ExecutorRequest
request = record {
  model = "kimi";
  payload = "c1";
  original_request = "";
  headers = ("X-Session-Id", "c1" ∷ []) ∷ ("Accept", "a" ∷ "b" ∷ []) ∷ [];
  metadata = field "caller_scope" (str "me") end;
  auth_id = "auth";
}

abbrev key : Key
key = record { caller = "me"; auth = "auth"; id = "c1" }

named : explicit_session_key json request ≡ some key
unfolding explicit_session_key to_lower trim_space any_char is_control valid_session_value
    object_fields add read get_field
named = refl

disagrees : explicit_session_key json (record request { payload = "c2" }) ≡ none
unfolding explicit_session_key to_lower trim_space any_char is_control valid_session_value
    object_fields add read get_field
disagrees = refl

explicit_session_key_iff_example :
    (explicit_session_key json request ≡ some key) ↔ Names json request key
explicit_session_key_iff_example = explicit_session_key_iff json request key
