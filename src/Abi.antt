-- ===== src/Abi.antt =====
-- go/main.go: what a call of the host and a call by the host are answered with. Memory, the C types and
-- the JSON of an envelope are the interface's; a length is in bytes.
use cmdcode_go.Base.{
  ℕ, String, ◌==◌, ◌≡◌, refl, Bool, true, not, ◌&&◌, ◌||◌, Option, none, some, ltb, eqb, len,
  if◌then◌else◌, is_some, Result, ok, err, ◌≤◌, ◌⊎◌, inl, inr, sym, ◌∙◌, eq_iff, arith, Bool-cases,
}
use cmdcode_go.Executor.{ErrorReply, error_envelope}

-- The part of a host's envelope that is read: whether it is fine, and the message of its error.
pub record HostEnvelope : Type 0 where
  pub fine : Bool
  pub message : Option String

pub data HostError : Type 0 where
  call_failed oversized_response invalid_response : HostError
  host_refused : String → HostError

abbrev pub max_host_response : ℕ
max_host_response = 4_194_304

abbrev or_default : String → String
or_default message = if message == "" then "host call failed" else message

abbrev message_of : Option String → String
message_of none = or_default ""
message_of (some message) = or_default message

abbrev host_answer : Option HostEnvelope → Option HostError
host_answer none = some invalid_response
host_answer (some env) = if env.fine then none else some (host_refused (message_of env.message))

abbrev host_response : (String → Option HostEnvelope) → Option String → Option HostError
host_response decode none = none
host_response decode (some raw) =
    if raw == ""
    then none
    else if ltb max_host_response (len raw)
    then some oversized_response
    else host_answer (decode raw)

-- hostCall, by the result of the C function and what it put into the response; no error is `none`.
unfoldable pub host_call : (String → Option HostEnvelope) → ℕ → Option String → Option HostError
host_call decode rc response =
    if not (eqb rc 0) then some call_failed else host_response decode response

abbrev pub max_request : ℕ
max_request = 67_108_864

-- The result of the C function, and the envelope that is written.
pub data Written : Type 0 where
  reply : String → Written
  failure : ErrorReply → Written

abbrev handled : Result String String → ℕ × Written
handled (err message) = (1, failure (error_envelope "plugin_error" message))
handled (ok raw) = (0, reply raw)

-- decodeRequest; the length is that of the bytes at the pointer
abbrev decode_request : Option String → String
decode_request none = ""
decode_request (some raw) = raw

abbrev oversized : Option String → ℕ → Bool
oversized request length = ltb max_request length || not (is_some request) && not (eqb length 0)

-- cliproxyPluginCall: `none` is a null pointer, `handle` the active runtime's Handle.
unfoldable pub plugin_call :
    (String → String → Result String String) → Option String → Option String → ℕ → ℕ × Written
plugin_call handle none request length =
    (1, failure (error_envelope "invalid_method" "method is required"))
plugin_call handle (some method) request length =
    if oversized request length
    then (1, failure (error_envelope "invalid_request" "invalid or oversized ABI request"))
    else handled (handle method (decode_request request))

-- What counts as a delivery: an empty response, or one that is not too long and is a fine envelope.
abbrev pub Acknowledged : (String → Option HostEnvelope) → Option String → Type 0
Acknowledged decode none = Unit
Acknowledged decode (some raw) =
    (raw ≡ "")
    ⊎ ((len raw ≤ max_host_response)
        × ((env : HostEnvelope) × (decode raw ≡ some env) × (env.fine ≡ true)))

answer-none :
    (o : Option HostEnvelope)
    → host_answer o ≡ none
    → (env : HostEnvelope) × (o ≡ some env) × (env.fine ≡ true)
answer-none none h = cc
answer-none (some env) h = (env, refl, ground arith)

response-none :
    (decode : String → Option HostEnvelope) (response : Option String)
    → host_response decode response ≡ none
    → Acknowledged decode response
response-none decode none h = tt
response-none decode (some raw) h = elim (Bool-cases (raw == "")) [
  | inl y ↦ inl ((eq_iff raw "").0 y)
  | inr n ↦ elim (Bool-cases (ltb max_host_response (len raw))) [
    | inl long ↦
        let x : host_response decode (some raw) ≡ some oversized_response = simp (n, long) refl in
        cc
    | inr short ↦
        let answered : host_answer (decode raw) ≡ none = simp (n, short) refl ∙ h in
        inr (ground arith, answer-none (decode raw) answered)
  ]
]

-- A host call without an error was made, and the host has acknowledged it: a malformed or oversized
-- response, or an envelope that is not fine, is an error.
pub host_call-none :
    (decode : String → Option HostEnvelope) (rc : ℕ) (response : Option String)
    → host_call decode rc response ≡ none
    → (rc ≡ 0) × Acknowledged decode response
unfolding host_call
host_call-none decode rc response h = elim (Bool-cases (eqb rc 0)) [
  | inl y ↦
      let answered : host_response decode response ≡ none = sym (simp y refl) ∙ h in
      (ground arith, response-none decode response answered)
  | inr n ↦ let x : host_call decode rc response ≡ some call_failed = simp n refl in cc
]
