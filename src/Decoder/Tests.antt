-- ===== src/Decoder/Tests.antt =====
-- go/event_decoder.go on a short turn.
use cmdcode_go.Base.{
  ℕ, ◌+◌, ◌≤◌, len, String, ◌==◌, ◌≡◌, refl, true, false, none, some, List, [], ◌∷◌, if◌then◌else◌,
  trim_space, Any,
}
use cmdcode_go.Wire.{Codec, WireEvent, null}
use cmdcode_go.Response.{Frame, Framer, missing_type}
use cmdcode_go.Response.Fold.{UsageTurns, apply_event}
use cmdcode_go.Decoder.{Decoder, new_decoder, push, push_line, finish}
use cmdcode_go.Response.{Accumulated}
use cmdcode_go.Response.Chunks.{to_openai_chunks}
use cmdcode_go.Decoder.{empty_answer}
use cmdcode_go.Response.Whole.{to_openai_response}
use cmdcode_go.Decoder.Modes.{SaysSame, to_openai_response-chunks}
use cmdcode_go.Decoder.Stops.{push_after_error, push_after_end}
use cmdcode_go.Decoder.Bounds.{push-le-limits}
use cmdcode_go.Decoder.Equivalent.{Alike, takes_every, consume-Alike}
use cmdcode_go.Decoder.Protocol.{IsFinish, consume-Ended}
use cmdcode_go.Decoder.Order.{Tags, Closed}
use cmdcode_go.Decoder.Stream.{consume-Complete}
use cmdcode_go.Decoder.Consume.{eof, consume, consume_lines, send, send_to}

abbrev event : String → String → WireEvent
event kind text = record {
  kind = kind;
  text = text;
  delta = "";
  tool_name = "f";
  tool_call_id = "";
  input = "";
  args = "";
  finish_reason = "stop";
  total_usage = none;
  error = null;
}

-- The line `a` is a text, `c` a tool call, `f` the end, and any other an event without a type.
abbrev decoded : String → WireEvent
decoded line =
    if line == "a"
    then event "text-delta" "hi"
    else if line == "c"
    then event "tool-call" ""
    else if line == "f"
    then event "finish" ""
    else event "" ""

abbrev codec : Codec
codec = record {
  unmarshal_event = λ line. some (decoded line);
  compact = λ text. some text;
  marshal = λ v. "";
}

abbrev framer : Framer
framer = record { model = "m"; id = "chat"; created = 0; sent_role = false }

abbrev no_turns : UsageTurns
no_turns = record { with_usage = 0; without_usage = 0; truncated = 0 }

abbrev streaming_decoder : Decoder
streaming_decoder = new_decoder (some framer) 10 100 no_turns

abbrev turn : List String
turn = "a" ∷ "c" ∷ "f" ∷ []

abbrev ids : ℕ → String
ids n = "call"

program : Unit {0}
unfolding push push_line finish new_decoder consume consume_lines send send_to apply_event
    trim_space
program = tt

abbrev fresh_decoder : Decoder
fresh_decoder = new_decoder none 10 100 no_turns

push_after_error_example : push codec "" (push codec "" fresh_decoder "x").decoder "a" ≡ record {
  decoder = (push codec "" fresh_decoder "x").decoder;
  frames = [];
  done = false;
  error = some missing_type;
}
unfolding program
push_after_error_example = push_after_error codec "" fresh_decoder "x" missing_type refl "" "a"

ignored_after_end : push codec "" (push codec "" fresh_decoder "f").decoder "a" ≡ record {
  decoder = (push codec "" fresh_decoder "f").decoder;
  frames = [];
  done = true;
  error = none;
}
unfolding program
ignored_after_end = push_after_end codec "" fresh_decoder "f" refl "" "a"

push-le-limits_example :
    ((push codec "" fresh_decoder "a").decoder.consumed ≡ fresh_decoder.consumed + len "a" + 1)
    × ((push codec "" fresh_decoder "a").decoder.consumed ≤ fresh_decoder.max_response_bytes)
    × (len "a" ≤ fresh_decoder.max_event_bytes)
unfolding program
push-le-limits_example = push-le-limits codec "" fresh_decoder "a" refl refl

consume-Alike_example :
    Alike
      (consume codec ids takes_every (new_decoder (some framer) 10 100 no_turns) turn eof)
      (consume codec ids none (new_decoder none 10 100 no_turns) turn eof)
consume-Alike_example = consume-Alike codec ids framer 10 100 no_turns turn eof

consume-Ended_example :
    ((consume codec ids none fresh_decoder turn eof).decoder.done ≡ true)
    × Any (IsFinish codec) turn
unfolding program
consume-Ended_example = consume-Ended codec ids none fresh_decoder turn eof refl refl

abbrev streamed_frames : List Frame
streamed_frames = (consume codec ids (some (λ sent f. true)) streaming_decoder turn eof).sent

consume-Complete_example :
    Tags false streamed_frames true
    × Closed
        (consume codec ids (some (λ sent f. true)) streaming_decoder turn eof).decoder.acc
        streamed_frames
unfolding program
consume-Complete_example =
    consume-Complete codec ids (λ sent f. true) framer 10 100 no_turns turn eof refl refl

abbrev answer : Accumulated
answer = record (empty_answer false) {
  text = "hi";
  tool_calls = record { id = "call"; name = "f"; input = "" } ∷ [];
  finish = "stop";
}

to_openai_response-chunks_example :
    SaysSame
      (to_openai_chunks "" framer answer)
      (to_openai_response "chat" 0 (λ i. "id") framer.model answer)
to_openai_response-chunks_example =
    to_openai_response-chunks "chat" "" 0 (λ i. "id") framer answer ((λ e. cc), tt)
