-- ===== src/Executor.antt =====
-- go/executor.go and go/stream.go: a turn from its request to the release of its conversation. The
-- session store is passed from call to call; a deferred release runs where the Go function returns.
-- The goroutine of a stream is its own operation, `relay`, that the caller runs later.
pub mod Run
pub mod Balanced
pub mod Admitted
pub mod Busy
pub mod Tests
use cmdcode_go.Base.{
  ℕ, suc, String, ◌==◌, ◌^^◌, Bool, true, false, not, ◌||◌, Option, none, some, List, [], ◌∷◌, len,
  ltb, leb, eqb, is_empty, trim_space, if◌then◌else◌, Result, ok, err, ◌>>=◌, ◌>>◌, fails_if,
}
use Prim.Native.String.{slice}
use cmdcode_go.Wire.{Codec}
use cmdcode_go.Config.{PluginConfig}
use cmdcode_go.Config.Sources.{Machine, resolve_api_key, permission_mode}
use cmdcode_go.Models.{ModelSnapshot, Filters, parse_model_name, match, allowed}
use cmdcode_go.Request.Tools.{SchemaCodec}
use cmdcode_go.Request.Envelope.{ChatRequest, GenerateRequest, EnvelopeError, Turn, build_envelope}
use cmdcode_go.Identity.{ExecutorRequest, Json, explicit_session_key}
use cmdcode_go.Session.{Key, Store, Outcome, granted, refused, dangling, Release, acquire, release}
use cmdcode_go.Gateway.{Transport, GatewayError, HttpResponse, open_response}
use cmdcode_go.Response.{
  Accumulated, Frame, Framer, TurnError, upstream_status, max_error_body_sample,
}
use cmdcode_go.Response.Fold.{UsageTurns}
use cmdcode_go.Response.Chunks.{to_openai_chunks}
use cmdcode_go.Decoder.{new_decoder}
use cmdcode_go.Decoder.Consume.{Receiver, Consumed, consume}

pub record TurnSnapshot : Type 0 where
  pub config : PluginConfig
  pub models : ModelSnapshot

-- What a turn calls of the machine, the libraries and the gateway, and the values that are new in it.
pub record Calls : Type 0 where
  pub machine : Machine
  pub json : Json
  pub codec : Codec
  pub schemas : SchemaCodec
  pub transport : Transport
  pub payload : String → Option (ChatRequest × Bool)
  pub ids : ℕ → String
  pub chunk_id : String
  pub call_ids : ℕ → String
  pub framer : Framer
  pub uuid : String
  pub entry_uuid : String
  pub date : String
  pub environment : String
  pub max_event_bytes : ℕ
  pub max_response_bytes : ℕ
  pub turns : UsageTurns

-- The message of an error: a text, the error that it prints, or a gateway's status and answer.
pub data Message : Type 0 where
  said : String → Message
  cause : EnvelopeError → Message
  upstream_http : ℕ → String → Message

-- An envelope with an error; the status is 0 if it has none.
pub record ErrorReply : Type 0 where
  pub code : String
  pub message : Message
  pub status : ℕ

abbrev pub error_envelope : String → String → ErrorReply
error_envelope code message = record { code = code; message = said message; status = 0 }

abbrev pub request_error_envelope : String → Message → ErrorReply
request_error_envelope code message = record { code = code; message = message; status = 400 }

unfoldable pub error_code : ℕ → String
error_code status =
    if eqb status 400
    then "bad_request"
    else if eqb status 401
    then "unauthorized"
    else if eqb status 402
    then "payment_required"
    else if eqb status 403
    then "forbidden"
    else if eqb status 404
    then "not_found"
    else if eqb status 422
    then "unprocessable"
    else if eqb status 429
    then "rate_limited"
    else if leb 500 status
    then "upstream_unavailable"
    else "upstream_error"

abbrev cut : String → String
cut s = if ltb max_error_body_sample (len s) then slice s 0 max_error_body_sample else s

unfoldable pub sample_body : String → String
sample_body body = let s = cut (trim_space body) in if s == "" then "(empty body)" else s

abbrev pub upstream_error_envelope : ℕ → String → ErrorReply
upstream_error_envelope status body = record {
  code = "cmdcode-go:" ^^ error_code status;
  message = upstream_http status (sample_body body);
  status = status;
}

pub record TurnPrep : Type 0 where
  pub key : String
  pub envelope : GenerateRequest
  pub config : PluginConfig
  -- `none` is the closure that does nothing
  pub release : Option Release

abbrev pub run_release : ℕ → Option Release → Store → Store
run_release now none s = s
run_release now (some r) s = (release r now s).1

abbrev pub filters_of : PluginConfig → Filters
filters_of cfg = record { models = cfg.models; disable_models = cfg.disable_models }

abbrev pub model_allowed : TurnSnapshot → Option String → Result ErrorReply String
model_allowed snap none = err (
    request_error_envelope "unknown_model" (said "cmdcode-go: model is not in the current catalog"))
model_allowed snap (some upstream) =
    if allowed snap.models upstream (filters_of snap.config)
    then ok upstream
    else err (
        request_error_envelope "model_disabled"
          (said "cmdcode-go: model excluded by configuration"))

-- The checks before a session is reserved; the key is their result.
unfoldable pub check_turn :
    Calls → TurnSnapshot → (String → String) → ExecutorRequest → Result ErrorReply String
check_turn c snap attrs req =
    let key = resolve_api_key c.machine snap.config attrs in
    do
      fails_if (key == "") (error_envelope "missing_api_key" "cmdcode-go: no API key configured")
      fails_if ((parse_model_name req.model).base == "")
          (request_error_envelope "missing_model" (said "cmdcode-go: empty model"))
      upstream ← model_allowed snap (match snap.models req.model)
      ok key

abbrev pub session_busy : ErrorReply
session_busy = record {
  code = "session_busy";
  message = said "cmdcode-go: session is busy; retry after the active turn finishes";
  status = 409;
}

-- A session's identifier and its release, or that it is busy.
abbrev pub reserved : Store × Outcome → Store × Result ErrorReply (String × Option Release)
reserved (s, granted id handle) = (s, ok (id, some (record { handle = handle; fired = false })))
reserved (s, refused) = (s, err session_busy)
reserved (s, dangling) = (s, err session_busy)

abbrev pub reserve_session :
    Calls → ℕ → Option Key → Store → Store × Result ErrorReply (String × Option Release)
reserve_session c now none s = (s, ok (c.uuid, none))
reserve_session c now (some key) s = reserved (acquire key now c.entry_uuid s)

abbrev pub turn_of : Calls → TurnSnapshot → ExecutorRequest → String → Turn
turn_of c snap req session = record {
  model = req.model;
  models = snap.models;
  session = session;
  permission_mode = permission_mode snap.config;
  date = c.date;
  environment = c.environment;
}

abbrev pub built :
    TurnSnapshot
    → ℕ
    → String
    → Option Release
    → Store
    → Result EnvelopeError GenerateRequest
    → Store × Result ErrorReply TurnPrep
built snap now key r s (err e) =
    (run_release now r s, err (request_error_envelope "invalid_request" (cause e)))
built snap now key r s (ok envelope) =
    (s, ok (record { key = key; envelope = envelope; config = snap.config; release = r }))

abbrev pub build_turn :
    Calls
    → TurnSnapshot
    → ℕ
    → ExecutorRequest
    → String
    → Store × Result ErrorReply (String × Option Release)
    → Store × Result ErrorReply TurnPrep
build_turn c snap now req key (s, err e) = (s, err e)
build_turn c snap now req key (s, ok (session, r)) =
    built snap now key r s
      (build_envelope c.codec c.schemas c.ids (turn_of c snap req session) (c.payload req.payload))

abbrev pub after_checks :
    Calls
    → TurnSnapshot
    → ℕ
    → ExecutorRequest
    → Store
    → Result ErrorReply String
    → Store × Result ErrorReply TurnPrep
after_checks c snap now req s (err e) = (s, err e)
after_checks c snap now req s (ok key) =
    build_turn c snap now req key (reserve_session c now (explicit_session_key c.json req) s)

unfoldable pub prepare_turn :
    Calls
    → TurnSnapshot
    → (String → String)
    → ℕ
    → ExecutorRequest
    → Store
    → Store × Result ErrorReply TurnPrep
unfolding check_turn
prepare_turn c snap attrs now req s = after_checks c snap now req s (check_turn c snap attrs req)
