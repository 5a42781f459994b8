-- ===== src/Decoder/Consume.antt =====
-- go/event_decoder.go, `Consume`: the loop over the lines of a response body. The input is the list
-- of lines that the scanner delivers and whether it then fails; a scanner fails on a line that is
-- longer than its buffer. The receiver of frames may refuse one, by all that it was given before.
use cmdcode_go.Base.{
  ℕ, suc, String, Bool, true, false, ◌||◌, Option, none, some, List, [], ◌∷◌, ◌++◌, eqb,
  if◌then◌else◌,
}
use cmdcode_go.Wire.{Codec}
use cmdcode_go.Response.{Frame, TurnError, read_error, emit_error, invalid_limits}
use cmdcode_go.Decoder.{Decoder, Pushed, push, finish}

-- `none` is a nil callback.
abbrev pub Receiver : Type 0
Receiver = Option (List Frame → Frame → Bool)

pub data Ending : Type 0 where
  eof broken : Ending

pub record Consumed : Type 0 where
  pub decoder : Decoder
  pub sent : List Frame
  pub error : Option TurnError

-- The frames that were delivered, and whether all were.
pub record Sent : Type 0 where
  pub sent : List Frame
  pub all : Bool

unfoldable pub send_to : (List Frame → Frame → Bool) → List Frame → List Frame → Sent
send_to accepts sent [] = record { sent = sent; all = true }
send_to accepts sent (f ∷ fs) =
    let rest = send_to accepts (sent ++ f ∷ []) fs in
    if accepts sent f then rest else record { sent = sent; all = false }

unfoldable pub send : Receiver → List Frame → List Frame → Sent
unfolding send_to
send none sent frames = record { sent = sent; all = true }
send (some accepts) sent frames = send_to accepts sent frames

abbrev pub at_end : List Frame → Decoder × Option TurnError → Consumed
at_end sent (d, error) = record { decoder = d; sent = sent; error = error }

abbrev pub close_input : Decoder → List Frame → Ending → Consumed
close_input d sent broken = record { decoder = d; sent = sent; error = some read_error }
close_input d sent eof = at_end sent (finish d)

abbrev pub go_on : Bool → Bool → Decoder → List Frame → Consumed → Consumed
go_on false done d sent rest = record { decoder = d; sent = sent; error = some emit_error }
go_on true true d sent rest = record { decoder = d; sent = sent; error = none }
go_on true false d sent rest = rest

-- One round: the error of `push`, a refused frame, the last event, or the rest of the lines.
abbrev pub round : Pushed → List Frame → Sent → Option TurnError → Consumed → Consumed
round p before s (some e) rest = record { decoder = p.decoder; sent = before; error = some e }
round p before s none rest = go_on s.all p.done p.decoder s.sent rest

unfoldable pub consume_lines :
    Codec → (ℕ → String) → Receiver → ℕ → List Frame → Decoder → List String → Ending → Consumed
consume_lines c ids emit i sent d [] e = close_input d sent e
consume_lines c ids emit i sent d (line ∷ lines) e =
    let p = push c (ids i) d line in
    let s = send emit sent p.frames in
    let rest = consume_lines c ids emit (suc i) s.sent p.decoder lines e in
    round p sent s p.error rest

-- `ids i` is the identifier that the `i`th line takes if it needs one.
unfoldable pub consume : Codec → (ℕ → String) → Receiver → Decoder → List String → Ending → Consumed
consume c ids emit d lines e =
    if eqb d.max_event_bytes 0 || eqb d.max_response_bytes 0
    then record { decoder = d; sent = []; error = some invalid_limits }
    else consume_lines c ids emit 0 [] d lines e
