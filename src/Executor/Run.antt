-- ===== src/Executor/Run.antt =====
-- go/executor.go and go/stream.go, a turn that has been prepared: the gateway's answer as a whole, or
-- relayed to the host. `now` is the time of the reservation, `later` that of the release.
use cmdcode_go.Base.{
  ℕ, String, ◌==◌, Bool, not, ◌||◌, Option, none, some, List, ltb, leb, if◌then◌else◌, Result, ok,
  err, ◌>>=◌,
}
use cmdcode_go.Identity.{ExecutorRequest}
use cmdcode_go.Session.{Store, Release}
use cmdcode_go.Gateway.{GatewayError, HttpResponse, open_response}
use cmdcode_go.Response.{Accumulated, Frame, Framer, TurnError, upstream_status}
use cmdcode_go.Response.Whole.{Completion, to_openai_response}
use cmdcode_go.Response.Chunks.{to_openai_chunks}
use cmdcode_go.Decoder.{new_decoder}
use cmdcode_go.Decoder.Consume.{Consumed, consume}
use cmdcode_go.Executor.{
  Calls, TurnSnapshot, ErrorReply, TurnPrep, upstream_error_envelope, prepare_turn, run_release,
}

-- An error envelope, or an error that the caller of the method reports.
pub data Failure : Type 0 where
  envelope : ErrorReply → Failure
  of_gateway : GatewayError → Failure
  of_turn : TurnError → Failure
  invalid_request shutting_down : Failure

abbrev pub decode_error : TurnError → Failure
decode_error (upstream_status status message) = envelope (upstream_error_envelope status message)
decode_error e = of_turn e

abbrev pub is_success : ℕ → Bool
is_success status = not (ltb status 200 || leb 300 status)

abbrev pub gateway_result : Result GatewayError HttpResponse → Result Failure HttpResponse
gateway_result (err e) = err (of_gateway e)
gateway_result (ok r) =
    if is_success r.status then ok r else err (envelope (upstream_error_envelope r.status r.sample))

-- The status check on the gateway's answer stands in `consumeTurn` and in `executeStream`.
unfoldable pub open_turn : Calls → TurnPrep → Result Failure HttpResponse
open_turn c p = gateway_result (open_response c.machine c.transport p.config p.envelope p.key)

abbrev pub whole : Consumed → Result Failure Accumulated
whole r = elim r.error [ none ↦ ok r.decoder.acc | some e ↦ err (decode_error e) ]

abbrev pub consume_response : Calls → HttpResponse → Result Failure Accumulated
consume_response c r = whole (
    consume c.codec c.ids none (new_decoder none c.max_event_bytes c.max_response_bytes c.turns)
      r.lines r.ending)

unfoldable pub consume_turn : Calls → TurnPrep → Result Failure Accumulated
unfolding open_turn
consume_turn c p = open_turn c p >>= consume_response c

-- The accumulated turn, under the requested model.
abbrev pub rendered : Calls → String → Result Failure Accumulated → Result Failure Completion
rendered c model (err e) = err e
rendered c model (ok acc) =
    ok (to_openai_response c.framer.id c.framer.created c.call_ids model acc)

abbrev pub execute_prepared :
    Calls → ℕ → String → Store × Result ErrorReply TurnPrep → Store × Result Failure Completion
execute_prepared c later model (s, err e) = (s, err (envelope e))
execute_prepared c later model (s, ok p) =
    (run_release later p.release s, rendered c model (consume_turn c p))

unfoldable pub execute_non_stream :
    Calls
    → TurnSnapshot
    → (String → String)
    → ℕ
    → ℕ
    → Option ExecutorRequest
    → Store
    → Store × Result Failure Completion
execute_non_stream c snap attrs now later none s = (s, err invalid_request)
execute_non_stream c snap attrs now later (some req) s =
    execute_prepared c later req.model (prepare_turn c snap attrs now req s)

-- What the goroutine of a stream has.
pub record Relay : Type 0 where
  pub model : String
  pub response : HttpResponse
  pub release : Option Release

pub data StreamReply : Type 0 where
  chunks : List Frame → StreamReply
  started : Relay → StreamReply

-- newFrameBuilder for the requested model
abbrev pub framer_for : Calls → String → Framer
framer_for c model = record c.framer { model = model }

abbrev pub as_chunks : Calls → String → Result Failure Accumulated → Result Failure StreamReply
as_chunks c model (err e) = err e
as_chunks c model (ok acc) = ok (chunks (to_openai_chunks c.chunk_id (framer_for c model) acc))

-- The release is transferred to the goroutine, or runs at once.
abbrev pub transfer :
    ℕ → String → TurnPrep → Store → Result Failure HttpResponse → Store × Result Failure StreamReply
transfer later model p s (err e) = (run_release later p.release s, err e)
transfer later model p s (ok r) =
    (s, ok (started (record { model = model; response = r; release = p.release })))

-- `id` is the host's stream, `admitted` what `begin` says of the sibling task.
abbrev pub stream_prepared :
    Calls
    → ℕ
    → String
    → String
    → Bool
    → Store × Result ErrorReply TurnPrep
    → Store × Result Failure StreamReply
stream_prepared c later model id admitted (s, err e) = (s, err (envelope e))
stream_prepared c later model id admitted (s, ok p) =
    if id == ""
    then (run_release later p.release s, as_chunks c model (consume_turn c p))
    else if admitted
    then transfer later model p s (open_turn c p)
    else (run_release later p.release s, err shutting_down)

unfoldable pub execute_stream :
    Calls
    → TurnSnapshot
    → (String → String)
    → ℕ
    → ℕ
    → Option (ExecutorRequest × String)
    → Bool
    → Store
    → Store × Result Failure StreamReply
execute_stream c snap attrs now later none admitted s = (s, err invalid_request)
execute_stream c snap attrs now later (some (req, id)) admitted s =
    stream_prepared c later req.model id admitted (prepare_turn c snap attrs now req s)

-- The frames that the host took, the error that the stream is closed with, and the store.
pub record Relayed : Type 0 where
  pub sent : List Frame
  pub closed_with : Option TurnError
  pub store : Store

-- The goroutine: relayStream, then the release. The host, or the end of the context, refuses a frame.
unfoldable pub relay : Calls → (List Frame → Frame → Bool) → ℕ → Relay → Store → Relayed
relay c accepts later r s =
    let x =
      consume c.codec c.ids (some accepts)
        (new_decoder (some (framer_for c r.model)) c.max_event_bytes c.max_response_bytes c.turns)
        r.response.lines r.response.ending in
    record { sent = x.sent; closed_with = x.error; store = run_release later r.release s }
