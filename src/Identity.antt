-- ===== src/Identity.antt =====
-- go/session.go, `explicitSessionKey`: which conversation a request names, if all that names one
-- agrees. A text is valid UTF-8 by its type.
pub mod Claims
pub mod Agreed
mod Tests
use cmdcode_go.Base.{
  ℕ, ◌+◌, String, len, ◌==◌, Bool, true, false, not, ◌&&◌, ◌||◌, Option, none, some, List, [], ◌∷◌,
  ◌++◌, leb, eqb, if◌then◌else◌, is_empty, trim_space, to_lower, any_char, is_control, is_some,
}
use cmdcode_go.Base.Options.{◌>>=◌, ◌>>◌, stops_if}
use cmdcode_go.Wire.{Value, null, bool, int, frac, str, arr, obj, Fields, get_field}
use cmdcode_go.Session.{Key}

-- What the host gives with a request. The headers are a map: no name stands twice, their order is
-- that of one iteration.
pub record ExecutorRequest : Type 0 where
  pub model : String
  pub payload : String
  pub original_request : String
  pub headers : List (String × List String)
  pub metadata : Fields
  pub auth_id : String

-- What the program uses of `encoding/json` here: the members of the one object that a text is, in
-- their order and with their raw values, and the value of a raw text.
pub record Json : Type 0 where
  pub members : String → Option (List (String × String))
  pub decode : String → Option Value

unfoldable pub valid_session_value : String → Bool
valid_session_value v =
    not (v == "") && leb (len v) 256 && (trim_space v == v) && not (any_char is_control v)

abbrev pub find_raw : String → List (String × String) → Option String
find_raw key [] = none
find_raw key ((k, raw) ∷ rest) =
    let other = find_raw key rest in if k == key then some raw else other

-- The loop over the members, with the map so far.
abbrev pub distinct_from :
    List (String × String) → List (String × String) → Option (List (String × String))
distinct_from m [] = some m
distinct_from m ((k, raw) ∷ rest) =
    let more = distinct_from ((k, raw) ∷ m) rest in if is_some (find_raw k m) then none else more

unfoldable pub object_fields : Json → String → Option (List (String × String))
object_fields j raw = j.members raw >>= distinct_from []

abbrev pub has : String → List String → Bool
has s [] = false
has s (x ∷ xs) = x == s || has s xs

abbrev pub session_headers : List String
session_headers =
    "x-session-id" ∷ "session-id" ∷ "session_id" ∷ "x-http-session-id" ∷ "x-claude-code-session-id"
    ∷ "x-conversation-id" ∷ "x-thread-id" ∷ "thread-id" ∷ []

-- The identity so far is empty until the first claim.
unfoldable pub add : Value → String → Option String
add (str s) identity =
    if valid_session_value s && (identity == "" || identity == s) then some s else none
add _ identity = none

-- `len(values) != 1 || strings.Contains(values[0], ",")`
abbrev pub single_value : List String → Option String
single_value (v ∷ []) = if any_char (λ c. eqb c b',') v then none else some v
single_value _ = none

-- The identity and the names seen so far.
abbrev pub claim_header :
    String → Option String → List String → String → Option (String × List String)
claim_header name none seen identity = none
claim_header name (some v) seen identity = add (str v) identity >>= λ i. some (i, name ∷ seen)

abbrev pub header_step : String × List String → String × List String → Option (String × List String)
header_step (name, values) (identity, seen) =
    if has (to_lower name) session_headers
    then (if has (to_lower name) seen
        then none
        else claim_header (to_lower name) (single_value values) seen identity)
    else some (identity, seen)

unfoldable pub read_headers :
    List (String × List String) → String × List String → Option (String × List String)
read_headers [] s = some s
read_headers (h ∷ hs) s = header_step h s >>= read_headers hs

abbrev pub add_present : Option Value → String → Option String
add_present none identity = some identity
add_present (some v) identity = add v identity

abbrev pub add_raw : Json → Option String → String → Option String
add_raw j none identity = some identity
add_raw j (some raw) identity = j.decode raw >>= λ v. add v identity

-- The names of a list in an object.
unfoldable pub read : Json → List (String × String) → List String → String → Option String
read j m [] identity = some identity
read j m (name ∷ names) identity = add_raw j (find_raw name m) identity >>= read j m names

abbrev pub body_names : List String
body_names =
    "session_id" ∷ "sessionId" ∷ "sessionID" ∷ "thread_id" ∷ "threadId" ∷ "conversation_id"
    ∷ "conversationId" ∷ "chat_id" ∷ "chatId" ∷ []

abbrev pub nested_names : List String
nested_names = "session_id" ∷ "thread_id" ∷ "conversation_id" ∷ []

-- A container that is there and not null.
abbrev pub read_container : Json → Option String → String → Option String
read_container j none identity = some identity
read_container j (some raw) identity =
    if raw == "null"
    then some identity
    else (object_fields j raw >>= λ nested. read j nested nested_names identity)

abbrev pub read_object : Json → List (String × String) → String → Option String
read_object j m identity = do
  i ← read j m body_names identity
  i' ← read_container j (find_raw "metadata" m) i
  read_container j (find_raw "extra_body" m) i'

unfoldable pub read_body : Json → String → String → Option String
unfolding object_fields read
read_body j raw identity =
    if is_empty raw then some identity else (object_fields j raw >>= λ m. read_object j m identity)

abbrev pub body_of : ExecutorRequest → String
body_of r = if is_empty r.original_request then r.payload else r.original_request

abbrev pub caller_of : Option Value → Option String
caller_of (some (str s)) = if valid_session_value s then some s else none
caller_of _ = none

abbrev pub key_of : String → String → String → Option Key
key_of caller auth id =
    if id == "" then none else some (record { caller = caller; auth = auth; id = id })

-- The identity that the headers, the metadata and the body agree on, empty if nothing names one.
abbrev pub identity_of : Json → ExecutorRequest → Option String
identity_of j r = do
  h ← read_headers r.headers ("", [])
  i ← add_present (get_field "execution_session_id" r.metadata) h.0
  read_body j (body_of r) i

unfoldable pub explicit_session_key : Json → ExecutorRequest → Option Key
unfolding read_headers read_body
explicit_session_key j r = do
  caller ← caller_of (get_field "caller_scope" r.metadata)
  stops_if (not (valid_session_value r.auth_id))
  id ← identity_of j r
  key_of caller r.auth_id id
