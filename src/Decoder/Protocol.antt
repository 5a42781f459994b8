-- ===== src/Decoder/Protocol.antt =====
-- The order of the frames of a stream, and what the end of a turn means.
use cmdcode_go.Base.{
  ℕ, suc, ◌≡◌, String, refl, Bool, true, false, ◌||◌, Option, none, some, List, [], ◌∷◌, eqb,
  Bool-cases, inl, inr, trim_space, Any, ◌≢◌, arith, eq_iff,
}
use cmdcode_go.Wire.{Codec, WireEvent}
use cmdcode_go.Response.{Accumulated, Frame, Sink, TurnError}
use cmdcode_go.Response.Fold.{
  Folded, Verdict, continues, finished, fails, apply_event, UsageTurns, call_tool, raw_input,
}
use cmdcode_go.Decoder.{Decoder, Pushed, push, finish, finish_with, conclude, counted, sink_of}
use cmdcode_go.Decoder.Cases.{push_cases, push_line_cases}
use cmdcode_go.Decoder.Consume.{
  Receiver, Ending, eof, broken, Consumed, Sent, send, consume_lines, consume, round, go_on, at_end,
}

-- The decoder reports the end exactly with its last event behind it.
abbrev pub TellsEnd : Pushed → Type 0
TellsEnd p = p.done ≡ true → (p.decoder.done ≡ true) × (p.error ≡ none)

conclude-TellsEnd : (d : Decoder) (r : Folded) (v : Verdict) → TellsEnd (conclude d r v)
conclude-TellsEnd d r continues h = cc
conclude-TellsEnd d r finished h = (refl, refl)
conclude-TellsEnd d r (fails e) h = cc

pub push-TellsEnd :
    (c : Codec) (fresh : String) (d : Decoder) (line : String) → TellsEnd (push c fresh d line)
push-TellsEnd c fresh d line =
    push_cases TellsEnd c fresh d line (λ e f h. cc) (λ f n h. (n, refl))
      (λ f n.
        push_line_cases TellsEnd c fresh d line (λ w h. cc) (λ w h. cc) (λ h. cc) (λ h. cc)
          (λ ev w u.
            let r = apply_event c fresh d.acc (sink_of d d.framer) d.turns ev (trim_space line) in
            conclude-TellsEnd (counted d line) r r.verdict))

-- A running decoder goes on running until it reports the end.
abbrev Runs : Pushed → Type 0
Runs p = p.done ≡ false → p.decoder.done ≡ false

conclude-Runs :
    (d : Decoder) (r : Folded) (k : Option Sink) (v : Verdict)
    → d.done ≡ false
    → Runs (conclude d (record r { sink = k }) v)
conclude-Runs d r none continues n h = n
conclude-Runs d r (some k) continues n h = n
conclude-Runs d r k finished n h = cc
conclude-Runs d r none (fails e) n h = n
conclude-Runs d r (some k) (fails e) n h = n

pub push-Runs :
    (c : Codec) (fresh : String) (d : Decoder) (line : String)
    → d.done ≡ false
    → Runs (push c fresh d line)
push-Runs c fresh d line n =
    push_cases Runs c fresh d line (λ e f h. n) (λ f m h. cc)
      (λ f m.
        push_line_cases Runs c fresh d line (λ w h. n) (λ w h. n) (λ h. n) (λ h. n)
          (λ ev w u.
            let r = apply_event c fresh d.acc (sink_of d d.framer) d.turns ev (trim_space line) in
            conclude-Runs (counted d line) r r.sink r.verdict n))

-- A line of the input that is a finish event.
abbrev pub IsFinish : Codec → String → Type 0
IsFinish c line =
    (ev : WireEvent) × (c.unmarshal_event (trim_space line) ≡ some ev) × (ev.kind ≡ "finish")

call_unfinished :
    (fresh : String) (ev : WireEvent) (a : Accumulated) (k : Option Sink) (t : UsageTurns)
    (o : Option String)
    → (call_tool fresh ev a k t o).verdict ≢ finished
call_unfinished fresh ev a k t none h = cc
call_unfinished fresh ev a k t (some input) h = cc

apply_event-finished :
    (c : Codec) (fresh : String) (a : Accumulated) (k : Option Sink) (t : UsageTurns)
    (ev : WireEvent) (line : String)
    → (apply_event c fresh a k t ev line).verdict ≡ finished
    → ev.kind ≡ "finish"
unfolding apply_event
apply_event-finished c fresh a k t ev line h =
    ground
      (arith, eq_iff ev.kind "finish", call_unfinished fresh ev a k t (c.compact (raw_input ev)))

conclude-finished :
    (d : Decoder) (r : Folded) (v : Verdict) → (conclude d r v).done ≡ true → v ≡ finished
conclude-finished d r continues h = cc
conclude-finished d r finished h = refl
conclude-finished d r (fails e) h = cc

-- A running decoder reports the end on a finish event only.
push-finishes :
    (c : Codec) (fresh : String) (d : Decoder) (line : String)
    → d.done ≡ false
    → (push c fresh d line).done ≡ true
    → IsFinish c line
push-finishes c fresh d line n =
    push_cases (λ p. p.done ≡ true → IsFinish c line) c fresh d line (λ e f h. cc) (λ f m h. cc)
      (λ f m.
        push_line_cases (λ p. p.done ≡ true → IsFinish c line) c fresh d line (λ w h. cc)
          (λ w h. cc) (λ h. cc) (λ h. cc)
          (λ ev w u h.
            let k = sink_of d d.framer in
            let r = apply_event c fresh d.acc k d.turns ev (trim_space line) in
            (
              ev,
              u,
              apply_event-finished c fresh d.acc k d.turns ev (trim_space line)
                  (conclude-finished (counted d line) r r.verdict h),
            )))

-- A turn without an error has seen its last event, which is one of the lines.
abbrev pub Ended : Codec → List String → Consumed → Type 0
Ended c lines r = r.error ≡ none → (r.decoder.done ≡ true) × Any (IsFinish c) lines

finish-unended :
    (c : Codec) (d : Decoder) (sent : List Frame) (o : Option TurnError) (b : Bool)
    → b ≡ false
    → Ended c [] (at_end sent (finish_with d o b))
finish-unended c d sent (some e) b q h = cc
finish-unended c d sent none true q h = cc
finish-unended c d sent none false q h = cc

module _ (c : Codec) (line : String) (lines : List String) where
  go_on-Ended :
      (every done : Bool) (d : Decoder) (sent : List Frame) (rest : Consumed)
      → (done ≡ true → (d.done ≡ true) × IsFinish c line)
      → (done ≡ false → Ended c lines rest)
      → Ended c (line ∷ lines) (go_on every done d sent rest)
  go_on-Ended false done d sent rest f h e = cc
  go_on-Ended true true d sent rest f h e = let (q, now) = f refl in (q, inl now)
  go_on-Ended true false d sent rest f h e = let (q, later) = h refl e in (q, inr later)

  round-Ended :
      (p : Pushed) (before : List Frame) (s : Sent) (o : Option TurnError) (rest : Consumed)
      → (p.done ≡ true → (p.decoder.done ≡ true) × IsFinish c line)
      → (p.done ≡ false → Ended c lines rest)
      → Ended c (line ∷ lines) (round p before s o rest)
  round-Ended p before s (some x) rest t h e = cc
  round-Ended p before s none rest t h e = go_on-Ended s.all p.done p.decoder s.sent rest t h e

consume_lines-Ended :
    (c : Codec) (ids : ℕ → String) (emit : Receiver) (i : ℕ) (sent : List Frame) (d : Decoder)
    → d.done ≡ false
    → (lines : List String) (e : Ending) → Ended c lines (consume_lines c ids emit i sent d lines e)
unfolding consume_lines finish
consume_lines-Ended c ids emit i sent d n [] eof = finish-unended c d sent d.fatal d.done n
consume_lines-Ended c ids emit i sent d n [] broken = λ h. cc
consume_lines-Ended c ids emit i sent d n (line ∷ lines) e =
    let p = push c (ids i) d line in
    let s = send emit sent p.frames in
    round-Ended c line lines p sent s p.error
      (consume_lines c ids emit (suc i) s.sent p.decoder lines e)
      (λ q. ((push-TellsEnd c (ids i) d line q).0, push-finishes c (ids i) d line n q))
      (λ q.
        consume_lines-Ended c ids emit (suc i) s.sent p.decoder (push-Runs c (ids i) d line n q)
          lines e)

every_consume-Ended :
    (c : Codec) (ids : ℕ → String) (emit : Receiver) (d : Decoder) (lines : List String)
    (e : Ending)
    → d.done ≡ false
    → Ended c lines (consume c ids emit d lines e)
unfolding consume
every_consume-Ended c ids emit d lines e n =
    elim (Bool-cases (eqb d.max_event_bytes 0 || eqb d.max_response_bytes 0)) [
      | inl bad ↦ simp bad (λ h. cc)
      | inr good ↦ simp good (consume_lines-Ended c ids emit 0 [] d n lines e)
    ]

-- Whatever the input, its end and the receiver are, `Consume` of a decoder that has not reached the
-- end returns no error only if one of the lines is a finish event, and the decoder then has reached
-- it: an input that just ends is an error.
pub consume-Ended :
    (c : Codec) (ids : ℕ → String) (emit : Receiver) (d : Decoder) (lines : List String)
    (e : Ending)
    → d.done ≡ false
    → (consume c ids emit d lines e).error ≡ none
    → ((consume c ids emit d lines e).decoder.done ≡ true) × Any (IsFinish c) lines
consume-Ended c ids emit d lines e n = every_consume-Ended c ids emit d lines e n
