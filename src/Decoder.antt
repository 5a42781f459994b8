-- ===== src/Decoder.antt =====
-- go/event_decoder.go: the one state machine over NDJSON lines, for streams and for whole answers.
-- A line is text without its end; `consumed` does not wrap at 2^63.
pub mod Cases
pub mod Stops
pub mod Consume
pub mod Frames
pub mod Parity
pub mod Lockstep
pub mod Equivalent
pub mod Bounds
pub mod Order
pub mod Stream
pub mod Rendered
pub mod Modes
mod Tests
pub mod Protocol
use cmdcode_go.Base.{
  ℕ, suc, ◌+◌, String, len, ◌==◌, Bool, true, false, not, ◌||◌, Option, none, some, List, [], ◌∷◌,
  ◌++◌, ltb, eqb, if◌then◌else◌, trim_space, is_empty,
}
use cmdcode_go.Wire.{Codec, WireEvent}
use cmdcode_go.Response.{
  Accumulated, no_usage, Framer, Frame, Sink, frame, with_role, final_frame, nothing, openai_usage,
  TurnError, size_limit, invalid_event, missing_type, truncated, read_error, emit_error,
  invalid_limits,
}
use cmdcode_go.Response.Fold.{
  UsageTurns, note_truncated, Folded, Verdict, continues, finished, fails, apply_event,
}

pub record Decoder : Type 0 where
  pub acc : Accumulated
  pub framer : Option Framer
  pub tools : ℕ
  pub done : Bool
  pub fatal : Option TurnError
  pub max_event_bytes : ℕ
  pub max_response_bytes : ℕ
  pub consumed : ℕ
  -- the counters of turns, which the package keeps
  pub turns : UsageTurns

abbrev pub empty_answer : Bool → Accumulated
empty_answer discard = record {
  discard = discard;
  seen_content = false;
  text = "";
  reasoning = "";
  tool_calls = [];
  finish = "";
  usage = no_usage;
  has_usage = false;
}

-- NewEventDecoder, with the limits that its callers set; a framer makes it a streaming one.
unfoldable pub new_decoder : Option Framer → ℕ → ℕ → UsageTurns → Decoder
new_decoder framer max_event max_response t = record {
  acc = empty_answer (elim framer [ none ↦ false | some f ↦ true ]);
  framer = framer;
  tools = 0;
  done = false;
  fatal = none;
  max_event_bytes = max_event;
  max_response_bytes = max_response;
  consumed = 0;
  turns = t;
}

pub record Pushed : Type 0 where
  pub decoder : Decoder
  pub frames : List Frame
  pub done : Bool
  pub error : Option TurnError

abbrev pub quiet : Decoder → Pushed
quiet d = record { decoder = d; frames = []; done = false; error = none }

abbrev pub fail : Decoder → TurnError → Pushed
fail d e = record {
  decoder = record d { fatal = some e };
  frames = [];
  done = false;
  error = some e;
}

abbrev pub sink_of : Decoder → Option Framer → Option Sink
sink_of d none = none
sink_of d (some f) = some (record { framer = f; tools = d.tools; frames = [] })

-- The decoder with what the event left in the accumulator, the framer and the counters.
abbrev pub keep_sink : Decoder → Folded → Option Sink → Decoder
keep_sink d r none = record d { acc = r.acc; turns = r.turns }
keep_sink d r (some k) = record d {
  acc = r.acc;
  turns = r.turns;
  framer = some k.framer;
  tools = k.tools;
}

abbrev pub frames_of : Option Sink → List Frame
frames_of none = []
frames_of (some k) = k.frames

-- The frames after those of the event, and the framer that is left.
abbrev pub ending : Accumulated → Option Sink → List Frame
ending acc none = []
ending acc (some k) =
    (if k.framer.sent_role then [] else frame k.framer nothing none none ∷ [])
    ++ final_frame k.framer acc.finish (openai_usage acc) ∷ []

abbrev tagged : Option Framer → Option Framer
tagged none = none
tagged (some f) = some (with_role f)

abbrev pub conclude : Decoder → Folded → Verdict → Pushed
conclude d r continues = record {
  decoder = keep_sink d r r.sink;
  frames = frames_of r.sink;
  done = false;
  error = none;
}
conclude d r finished =
    let kept = keep_sink d r r.sink in
    record {
      decoder = record kept { done = true; framer = tagged kept.framer };
      frames = frames_of r.sink ++ ending r.acc r.sink;
      done = true;
      error = none;
    }
conclude d r (fails e) = fail (keep_sink d r r.sink) e

abbrev pub decode : Codec → String → Decoder → String → Option WireEvent → Pushed
decode c fresh d line none = fail d invalid_event
decode c fresh d line (some ev) =
    if ev.kind == ""
    then fail d missing_type
    else let r = apply_event c fresh d.acc (sink_of d d.framer) d.turns ev line in
      conclude d r r.verdict

abbrev pub counted : Decoder → String → Decoder
counted d line = record d { consumed = d.consumed + len line + 1 }

abbrev pub over_limits : Decoder → String → Bool
over_limits d line = ltb d.max_event_bytes (len line) || ltb d.max_response_bytes d.consumed

-- `push` of a decoder that has not stopped.
unfoldable pub push_line : Codec → String → Decoder → String → Pushed
push_line c fresh d' raw =
    let d = counted d' raw in
    let line = trim_space raw in
    if over_limits d raw
    then fail d size_limit
    else if is_empty line
    then quiet d
    else decode c fresh d line (c.unmarshal_event line)

abbrev pub push_running : Codec → String → Decoder → String → Bool → Pushed
push_running c fresh d line true = record { decoder = d; frames = []; done = true; error = none }
push_running c fresh d line false = push_line c fresh d line

abbrev pub push_with : Codec → String → Decoder → String → Option TurnError → Pushed
push_with c fresh d line (some e) = record {
  decoder = d;
  frames = [];
  done = false;
  error = some e;
}
push_with c fresh d line none = push_running c fresh d line d.done

unfoldable pub push : Codec → String → Decoder → String → Pushed
push c fresh d line = push_with c fresh d line d.fatal

abbrev pub finish_with : Decoder → Option TurnError → Bool → Decoder × Option TurnError
finish_with d (some e) done = (d, some e)
finish_with d none true = (d, none)
finish_with d none false =
    (record d { fatal = some truncated; turns = note_truncated d.turns }, some truncated)

-- The end of the input.
unfoldable pub finish : Decoder → Decoder × Option TurnError
unfolding note_truncated
finish d = finish_with d d.fatal d.done
