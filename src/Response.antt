-- ===== src/Response.antt =====
-- go/response.go: the fold of one event into the answer so far, and the frames of a stream. A frame
-- is what `json.Marshal` is given; new identifiers are arguments.
pub mod Fold
pub mod Events
pub mod Chunks
pub mod Whole
use Prim.Native.String.{slice}
use cmdcode_go.Base.{
  ℕ, suc, ◌+◌, String, len, ◌==◌, ◌^^◌, Bool, true, false, not, ◌&&◌, ◌||◌, Option, none, some,
  List, [], ◌∷◌, ◌++◌, leb, ltb, if◌then◌else◌, ℤ, pos, negsuc, ◌+ℤ◌, is_positive, trim_space,
  is_empty, Result, ok, err,
}
use cmdcode_go.Wire.{
  Value, null, bool, int, frac, str, arr, obj, Fields, end, field, nil, cons, get_field, Usage,
  WireEvent, Codec,
}

pub record Tool : Type 0 where
  pub id : String
  pub name : String
  pub input : String

pub record Accumulated : Type 0 where
  pub discard : Bool
  pub seen_content : Bool
  pub text : String
  pub reasoning : String
  pub tool_calls : List Tool
  pub finish : String
  pub usage : Usage
  pub has_usage : Bool

abbrev pub no_usage : Usage
no_usage = record {
  input_tokens = pos 0;
  output_tokens = pos 0;
  cache_read_tokens = pos 0;
  cache_write_tokens = pos 0;
}

-- The keys of a delta beside `role`; a tool call has its index, identifier, name and arguments.
pub data Body : Type 0 where
  content reasoning_content : String → Body
  tool_call : ℕ → String → String → String → Body
  nothing : Body

pub record UsageReport : Type 0 where
  pub prompt : ℤ
  pub completion : ℤ
  pub total : ℤ
  pub cached : Option ℤ

pub record Frame : Type 0 where
  pub id : String
  pub created : ℕ
  pub model : String
  pub role : Bool
  pub body : Body
  pub finish : Option String
  pub usage : Option UsageReport

pub record Framer : Type 0 where
  pub model : String
  pub id : String
  pub created : ℕ
  pub sent_role : Bool

-- withRole and frame
abbrev pub frame : Framer → Body → Option String → Option UsageReport → Frame
frame f body finish usage = record {
  id = f.id;
  created = f.created;
  model = f.model;
  role = not f.sent_role;
  body = body;
  finish = finish;
  usage = usage;
}

abbrev pub with_role : Framer → Framer
with_role f = record f { sent_role = true }

-- finalFrame: its delta is empty and never tagged
abbrev pub final_frame : Framer → String → UsageReport → Frame
final_frame f finish usage = frame (with_role f) nothing (some finish) (some usage)

unfoldable pub tool_body : ℕ → String → String → String → String → Body
tool_body index id name args fresh =
    tool_call index (if id == "" then fresh else id) name (if args == "" then "{}" else args)

abbrev reported : Accumulated → ℤ → ℤ
reported a n = if a.has_usage then n else pos 0

unfoldable pub openai_usage : Accumulated → UsageReport
openai_usage a =
    let prompt = reported a a.usage.input_tokens in
    let completion = reported a a.usage.output_tokens in
    let cached = reported a a.usage.cache_read_tokens in
    record {
      prompt = prompt;
      completion = completion;
      total = prompt +ℤ completion;
      cached = if is_positive cached then some cached else none;
    }

-- The sink of a streaming decoder: its framer, its counter of tool calls, the frames of one event.
pub record Sink : Type 0 where
  pub framer : Framer
  pub tools : ℕ
  pub frames : List Frame

abbrev pub emit : Body → Option Sink → Option Sink
emit body none = none
emit body (some k) = some (record k {
  framer = with_role k.framer;
  frames = k.frames ++ frame k.framer body none none ∷ [];
})

abbrev pub emit_tool : String → String → String → String → Option Sink → Option Sink
emit_tool id name input fresh none = none
emit_tool id name input fresh (some k) = some (record k {
  framer = with_role k.framer;
  frames = k.frames ++ frame k.framer (tool_body k.tools id name input fresh) none none ∷ [];
  tools = suc k.tools;
})

pub data TurnError : Type 0 where
  size_limit invalid_event missing_type invalid_arguments aborted truncated : TurnError
  upstream_error : String → TurnError
  upstream_status : ℕ → String → TurnError
  read_error emit_error invalid_limits : TurnError

unfoldable pub event_text : WireEvent → String
event_text ev = if ev.text == "" then ev.delta else ev.text

unfoldable pub map_finish_reason : String → String
map_finish_reason reason =
    if reason == "tool-calls" then "tool_calls" else if reason == "length" then "length" else "stop"

abbrev pub max_error_body_sample : ℕ
max_error_body_sample = 2048

abbrev sample_line : String → String
sample_line s = if ltb max_error_body_sample (len s) then slice s 0 max_error_body_sample else s

abbrev marshalled : Codec → Value → String → String
marshalled c null line = sample_line (trim_space line)
marshalled c v line = c.marshal v

unfoldable pub wire_error_text : Codec → Value → String → String
wire_error_text c (str s) line = if s == "" then c.marshal (str s) else s
wire_error_text c v line = marshalled c v line

-- m["statusCode"].(float64), between 400 and 599
abbrev http_status : Option Value → Option ℕ
http_status (some (int (pos n))) = if leb 400 n && ltb n 600 then some n else none
http_status (some (frac (pos n) text)) = if leb 400 n && ltb n 600 then some n else none
http_status _ = none

unfoldable pub status_of : Value → Option ℕ
status_of (obj fs) = http_status (get_field "statusCode" fs)
status_of _ = none

abbrev event_error : Option ℕ → String → TurnError
event_error none message = upstream_error message
event_error (some status) message = upstream_status status message

unfoldable pub upstream_event_error : Codec → Value → String → TurnError
unfolding status_of wire_error_text
upstream_event_error c v line =
    event_error (status_of v) ("cmdcode-go: upstream error: " ^^ wire_error_text c v line)
