-- ===== src/Decoder/Parity.antt =====
-- The two modes of the decoder beside each other: the frames of a streamed turn carry what the
-- accumulator of a buffered one holds.
use cmdcode_go.Base.{
  ℕ, ◌+◌, String, ◌==◌, ◌^^◌, ◌≡◌, refl, sym, ap, ◌∙◌, true, false, Option, none, some, List, [],
  ◌∷◌, ◌++◌, length, length-append, arith, if◌then◌else◌, Bool-cases, inl, inr, eq_iff,
}
use text.Mathlib.TextLemmas.{append-nil}
use cmdcode_go.Wire.{Codec, WireEvent}
use cmdcode_go.Response.{
  Accumulated, Sink, Frame, Framer, Tool, TurnError, emit, emit_tool, content, reasoning_content,
  tool_body,
}
use cmdcode_go.Response.Fold.{
  Folded, Verdict, continues, finished, fails, UsageTurns, call_id, apply_event, add_text,
  add_reasoning, add_tool, add_finish, stays,
}
use cmdcode_go.Response.Events.{apply_event_cases}
use cmdcode_go.Decoder.Frames.{
  text_of, reasoning_of, calls_of, numbered, numbered_call, Call, text_of-snoc, reasoning_of-snoc,
  calls_of-append, numbered-append,
}

-- A streamed answer `s` with `tools` calls and the frames `sent`, and a buffered answer `b`.
pub record Mirrors (s : Accumulated) (tools : ℕ) (sent : List Frame) (b : Accumulated)
    : Type 0 where
  pub text : text_of sent ≡ b.text
  pub reasoning : reasoning_of sent ≡ b.reasoning
  pub calls : calls_of sent ≡ numbered 0 b.tool_calls
  pub count : tools ≡ length b.tool_calls
  pub discards : s.discard ≡ true
  pub keeps : b.discard ≡ false
  pub seen : s.seen_content ≡ b.seen_content
  pub finish : s.finish ≡ b.finish
  pub usage : s.usage ≡ b.usage
  pub has_usage : s.has_usage ≡ b.has_usage

-- What one event does to both.
abbrev pub Both : (Accumulated → Option Sink → Folded) → Type 0
Both F =
    (s : Accumulated) (f : Framer) (tools : ℕ) (sent : List Frame) (b : Accumulated)
    → Mirrors s tools sent b
    → let x = F s (some (record { framer = f; tools = tools; frames = [] })) in
      let y = F b none in
      (x.verdict ≡ y.verdict)
      × (x.turns ≡ y.turns)
      × (y.sink ≡ none)
      × (k : Sink) × (x.sink ≡ some k)
      × ((e : TurnError) → x.verdict ≡ fails e → k.frames ≡ [])
      × Mirrors x.acc k.tools (sent ++ k.frames) y.acc

pub append_nil {ℓ} : {A : Type ℓ} (xs : List A) → xs ++ [] ≡ xs
append_nil [] = refl
append_nil (x ∷ xs) = ap (λ l. x ∷ l) (append_nil xs)

quiet-Both : (t : UsageTurns) (v : Verdict) → Both (λ a k. stays a k t v)
quiet-Both t v s f tools sent b h = (
  refl,
  refl,
  refl,
  record { framer = f; tools = tools; frames = [] },
  refl,
  (λ e q. refl),
  rw append_nil h,
)

finish-Both : (ev : WireEvent) (t : UsageTurns) → Both (λ a k. stays (add_finish ev a) k t finished)
finish-Both ev t s f tools sent b h = (
  refl,
  refl,
  refl,
  record { framer = f; tools = tools; frames = [] },
  refl,
  (λ e h. cc),
  rw append_nil (record {
    text = h.text;
    reasoning = h.reasoning;
    calls = h.calls;
    count = h.count;
    discards = h.discards;
    keeps = h.keeps;
    seen = h.seen;
    finish = refl;
    usage = ap (λ u. elim ev.total_usage [ none ↦ u | some x ↦ x ]) h.usage;
    has_usage = ap (λ u. elim ev.total_usage [ none ↦ u | some x ↦ true ]) h.has_usage;
  }),
)

text-Both :
    (text : String) (t : UsageTurns)
    → Both (λ a k. stays (add_text text a) (emit (content text) k) t continues)
text-Both text t s f tools sent b h = (
  refl,
  refl,
  refl,
  _,
  refl,
  (λ e h. cc),
  record {
    text = simp h.keeps (text_of-snoc sent _ ∙ ap (λ x. x ^^ text) h.text);
    reasoning = reasoning_of-snoc sent _ ∙ append-nil _ ∙ h.reasoning;
    calls = calls_of-append sent _ ∙ append_nil _ ∙ h.calls;
    count = h.count;
    discards = h.discards;
    keeps = h.keeps;
    seen = refl;
    finish = h.finish;
    usage = h.usage;
    has_usage = h.has_usage;
  },
)

reasoning-Both :
    (text : String) (t : UsageTurns)
    → Both (λ a k. stays (add_reasoning text a) (emit (reasoning_content text) k) t continues)
reasoning-Both text t s f tools sent b h = (
  refl,
  refl,
  refl,
  _,
  refl,
  (λ e h. cc),
  record {
    text = text_of-snoc sent _ ∙ append-nil _ ∙ h.text;
    reasoning = simp h.keeps (reasoning_of-snoc sent _ ∙ ap (λ x. x ^^ text) h.reasoning);
    calls = calls_of-append sent _ ∙ append_nil _ ∙ h.calls;
    count = h.count;
    discards = h.discards;
    keeps = h.keeps;
    seen = refl;
    finish = h.finish;
    usage = h.usage;
    has_usage = h.has_usage;
  },
)

-- The identifier in a frame is the one that the decoder has settled.
framed_id :
    (fresh : String) (ev : WireEvent)
    → (if call_id fresh ev == "" then fresh else call_id fresh ev) ≡ call_id fresh ev
framed_id fresh ev = elim (Bool-cases (call_id fresh ev == "")) [
  | inl e ↦ ground (arith, eq_iff (call_id fresh ev) "", eq_iff ev.tool_call_id "")
  | inr n ↦ simp n
]

calls_grow :
    (cs : List Call) (ts : List Tool) (n : ℕ) (x : Call) (tool : Tool)
    → cs ≡ numbered 0 ts
    → n ≡ length ts
    → numbered_call n tool ≡ x
    → cs ++ x ∷ [] ≡ numbered 0 (ts ++ tool ∷ [])
calls_grow cs ts n x tool e c q =
    let at : n ≡ 0 + length ts = omega (arith, c) in
    let last : x ≡ numbered_call (0 + length ts) tool = sym q ∙ ap (λ m. numbered_call m tool) at in
    ap (λ l. l ++ x ∷ []) e
    ∙ ap (λ y. numbered 0 ts ++ y ∷ []) last
    ∙ sym (numbered-append 0 ts (tool ∷ []))

tool-Both :
    (fresh input : String) (ev : WireEvent) (t : UsageTurns)
    → Both (λ a k.
      stays
        (add_tool (record { id = call_id fresh ev; name = ev.tool_name; input = input }) a)
        (emit_tool (call_id fresh ev) ev.tool_name input fresh k)
        t
        continues)
unfolding tool_body
tool-Both fresh input ev t s f tools sent b h =
    let tool : Tool = record { id = call_id fresh ev; name = ev.tool_name; input = input } in
    (
      refl,
      refl,
      refl,
      _,
      refl,
      (λ e h. cc),
      record {
        text = text_of-snoc sent _ ∙ append-nil _ ∙ h.text;
        reasoning = reasoning_of-snoc sent _ ∙ append-nil _ ∙ h.reasoning;
        calls = simp h.keeps (
            calls_of-append sent _
            ∙ calls_grow _ _ _ _ tool h.calls h.count (
                ap (λ i. record (numbered_call tools tool) { id = i }) (sym (framed_id fresh ev))));
        count = simp h.keeps (omega (arith, h.count, length-append b.tool_calls (tool ∷ [])));
        discards = h.discards;
        keeps = h.keeps;
        seen = refl;
        finish = h.finish;
        usage = h.usage;
        has_usage = h.has_usage;
      },
    )

-- One event does the same to a streamed and to a buffered answer.
pub event-Both :
    (c : Codec) (fresh : String) (t : UsageTurns) (ev : WireEvent) (line : String)
    → Both (λ a k. apply_event c fresh a k t ev line)
event-Both c fresh t ev line =
    apply_event_cases Both c fresh t ev line (quiet-Both t _) (λ e. quiet-Both t _)
      (λ s. text-Both s t) (λ s. reasoning-Both s t) (λ input. tool-Both fresh input ev t)
      (finish-Both ev _)
