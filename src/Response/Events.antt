-- ===== src/Response/Events.antt =====
-- The ways in which `applyEvent` folds an event, whatever the answer so far and the sink are.
use cmdcode_go.Base.{String, ◌==◌, Bool, true, false, Option, none, some, is_some, if◌then◌else◌}
use cmdcode_go.Wire.{Codec, WireEvent}
use cmdcode_go.Response.{
  Accumulated, Sink, TurnError, content, reasoning_content, emit, emit_tool, invalid_arguments,
  aborted, event_text, upstream_event_error,
}
use cmdcode_go.Response.Fold.{
  Folded, UsageTurns, continues, finished, fails, stays, add_text, add_reasoning, add_tool,
  add_finish, call_id, call_tool, raw_input, note_terminal, apply_event,
}

module _ {ℓ} (P : (Accumulated → Option Sink → Folded) → Type ℓ) (c : Codec) (fresh : String)
    (t : UsageTurns) (ev : WireEvent) (line : String) (ignored : P (λ a k. stays a k t continues))
    (failed : (e : TurnError) → P (λ a k. stays a k t (fails e)))
    (texts : (s : String) → P (λ a k. stays (add_text s a) (emit (content s) k) t continues))
    (reasons : (s : String)
      → P (λ a k. stays (add_reasoning s a) (emit (reasoning_content s) k) t continues))
    (calls : (input : String)
      → P (λ a k.
        stays
          (add_tool (record { id = call_id fresh ev; name = ev.tool_name; input = input }) a)
          (emit_tool (call_id fresh ev) ev.tool_name input fresh k)
          t
          continues))
    (finishes : P
      (λ a k. stays (add_finish ev a) k (note_terminal (is_some ev.total_usage) t) finished)) where
  text_cases :
      (b : Bool)
      → P (λ a k.
        if b
        then stays a k t continues
        else stays (add_text (event_text ev) a) (emit (content (event_text ev)) k) t continues)
  text_cases true = ignored
  text_cases false = texts (event_text ev)

  reasoning_cases :
      (b : Bool)
      → P (λ a k.
        if b
        then stays a k t continues
        else stays
            (add_reasoning (event_text ev) a)
            (emit (reasoning_content (event_text ev)) k)
            t
            continues)
  reasoning_cases true = ignored
  reasoning_cases false = reasons (event_text ev)

  call_cases : (o : Option String) → P (λ a k. call_tool fresh ev a k t o)
  call_cases none = failed invalid_arguments
  call_cases (some input) = calls input

  either :
      (b : Bool) {F G : Accumulated → Option Sink → Folded}
      → P F
      → P G
      → P (λ a k. if b then F a k else G a k)
  either true f g = f
  either false f g = g

  pub apply_event_cases : P (λ a k. apply_event c fresh a k t ev line)
  unfolding apply_event
  apply_event_cases = either (ev.kind == "text-delta") (text_cases (event_text ev == "")) (
      either (ev.kind == "reasoning-delta") (reasoning_cases (event_text ev == "")) (
        either (ev.kind == "tool-call") (call_cases (c.compact (raw_input ev))) (
          either (ev.kind == "finish") finishes (
            either (ev.kind == "error") (failed (upstream_event_error c ev.error line))
              (either (ev.kind == "abort") (failed aborted) ignored)))))
