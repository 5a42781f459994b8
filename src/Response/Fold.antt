-- ===== src/Response/Fold.antt =====
-- go/response.go, `applyEvent`, and the counters of `noteTerminal` and `noteTruncated`.
use cmdcode_go.Base.{
  ℕ, ◌+◌, ◌%◌, String, ◌==◌, ◌^^◌, Bool, true, ◌&&◌, Option, none, some, [], ◌∷◌, ◌++◌, eqb, ltb,
  if◌then◌else◌, is_some,
}
use cmdcode_go.Wire.{WireEvent, Codec}
use cmdcode_go.Response.{
  Tool, Accumulated, Sink, content, reasoning_content, emit, emit_tool, TurnError,
  invalid_arguments, aborted, event_text, map_finish_reason, upstream_event_error,
}

-- The counters of turns; they do not wrap at 2^64.
pub record UsageTurns : Type 0 where
  pub with_usage : ℕ
  pub without_usage : ℕ
  pub truncated : ℕ

unfoldable pub note_terminal : Bool → UsageTurns → UsageTurns
note_terminal has_usage t =
    if has_usage
    then record t { with_usage = t.with_usage + 1 }
    else record t { without_usage = t.without_usage + 1 }

unfoldable pub note_truncated : UsageTurns → UsageTurns
note_truncated t = record t { truncated = t.truncated + 1 }

abbrev pub turns : UsageTurns → ℕ
turns t = t.with_usage + t.without_usage + t.truncated

-- A summary is logged every hundredth turn.
pub logs_summary : UsageTurns → Bool
logs_summary t = ltb 0 (turns t) && eqb (turns t % 100) 0

pub data Verdict : Type 0 where
  continues finished : Verdict
  fails : TurnError → Verdict

-- What an event leaves: the answer so far, the sink and the counters.
pub record Folded : Type 0 where
  pub acc : Accumulated
  pub sink : Option Sink
  pub turns : UsageTurns
  pub verdict : Verdict

abbrev pub stays : Accumulated → Option Sink → UsageTurns → Verdict → Folded
stays acc sink t v = record { acc = acc; sink = sink; turns = t; verdict = v }

abbrev pub add_text : String → Accumulated → Accumulated
add_text text acc = record acc {
  seen_content = true;
  text = if acc.discard then acc.text else acc.text ^^ text;
}

abbrev pub add_reasoning : String → Accumulated → Accumulated
add_reasoning text acc = record acc {
  seen_content = true;
  reasoning = if acc.discard then acc.reasoning else acc.reasoning ^^ text;
}

abbrev pub add_tool : Tool → Accumulated → Accumulated
add_tool tool acc = record acc {
  seen_content = true;
  tool_calls = if acc.discard then acc.tool_calls else acc.tool_calls ++ tool ∷ [];
}

abbrev pub add_finish : WireEvent → Accumulated → Accumulated
add_finish ev acc = record acc {
  finish = map_finish_reason ev.finish_reason;
  usage = elim ev.total_usage [ none ↦ acc.usage | some u ↦ u ];
  has_usage = elim ev.total_usage [ none ↦ acc.has_usage | some u ↦ true ];
}

-- input, else args, else an empty object
abbrev pub raw_input : WireEvent → String
raw_input ev = if ev.input == "" then (if ev.args == "" then "{}" else ev.args) else ev.input

abbrev pub call_id : String → WireEvent → String
call_id fresh ev = if ev.tool_call_id == "" then fresh else ev.tool_call_id

abbrev pub call_tool :
    String → WireEvent → Accumulated → Option Sink → UsageTurns → Option String → Folded
call_tool fresh ev acc sink t none = stays acc sink t (fails invalid_arguments)
call_tool fresh ev acc sink t (some input) =
    stays (add_tool (record { id = call_id fresh ev; name = ev.tool_name; input = input }) acc)
      (emit_tool (call_id fresh ev) ev.tool_name input fresh sink) t continues

unfoldable pub apply_event :
    Codec → String → Accumulated → Option Sink → UsageTurns → WireEvent → String → Folded
unfolding event_text note_terminal
apply_event c fresh acc sink t ev line =
    let text = event_text ev in
    if ev.kind == "text-delta"
    then (if text == ""
        then stays acc sink t continues
        else stays (add_text text acc) (emit (content text) sink) t continues)
    else if ev.kind == "reasoning-delta"
    then (if text == ""
        then stays acc sink t continues
        else stays (add_reasoning text acc) (emit (reasoning_content text) sink) t continues)
    else if ev.kind == "tool-call"
    then call_tool fresh ev acc sink t (c.compact (raw_input ev))
    else if ev.kind == "finish"
    then stays (add_finish ev acc) sink (note_terminal (is_some ev.total_usage) t) finished
    else if ev.kind == "error"
    then stays acc sink t (fails (upstream_event_error c ev.error line))
    else if ev.kind == "abort"
    then stays acc sink t (fails aborted)
    else stays acc sink t continues
