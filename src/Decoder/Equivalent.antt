-- ===== src/Decoder/Equivalent.antt =====
-- Streaming and buffered consumption of the same input.
use cmdcode_go.Base.{
  ℕ, suc, String, ◌≡◌, refl, sym, ap, ◌∙◌, subst, Bool, true, false, Option, none, some, List, [],
  ◌∷◌, ◌++◌, if◌then◌else◌, eqb, ◌||◌,
}
use cmdcode_go.Wire.{Codec}
use cmdcode_go.Response.{Accumulated, Frame, Framer, TurnError}
use cmdcode_go.Response.Fold.{UsageTurns}
use cmdcode_go.Decoder.{Decoder, Pushed, push, finish, finish_with, new_decoder, empty_answer}
use cmdcode_go.Decoder.Parity.{Mirrors, append_nil}
use cmdcode_go.Decoder.Lockstep.{Parallel, twin, streaming, push-Parallel, append_assoc_list}
use cmdcode_go.Decoder.Consume.{
  Receiver, Ending, eof, broken, Consumed, Sent, send, send_to, consume_lines, consume, round,
  go_on, at_end,
}

-- A client that takes every frame.
abbrev pub takes_every : Receiver
takes_every = some (λ sent f. true)

-- A streamed run `x` and a buffered run `y`.
abbrev pub Alike : Consumed → Consumed → Type 0
Alike x y = (x.error ≡ y.error) × Mirrors x.decoder.acc x.decoder.tools x.sent y.decoder.acc

send_every :
    (sent fs : List Frame)
    → send_to (λ sent f. true) sent fs ≡ record { sent = sent ++ fs; all = true }
unfolding send_to
send_every sent [] = ap (λ l. record { sent = l; all = true }) (sym (append_nil sent))
send_every sent (f ∷ fs) =
    send_every (sent ++ f ∷ []) fs
    ∙ ap (λ l. record { sent = l; all = true }) (sym (append_assoc_list sent (f ∷ []) fs))

finish-Alike :
    (n : ℕ) (sent : List Frame) (d : Decoder) (f : Framer) (a : Accumulated)
    → Mirrors d.acc d.tools sent a
    → (o : Option TurnError) (done : Bool)
    → Alike
        (at_end sent (finish_with (streaming d f) o done))
        (at_end [] (finish_with (twin d a n) o done))
finish-Alike n sent d f a m (some e) done = (refl, m)
finish-Alike n sent d f a m none true = (refl, m)
finish-Alike n sent d f a m none false = (refl, m)

module _ (n : ℕ) (sent : List Frame) (p q : Pushed) (h : Parallel n sent p q) (x y : Consumed) where
  same_frames : Mirrors p.decoder.acc p.decoder.tools (sent ++ p.frames) q.decoder.acc
  same_frames =
      subst (Mirrors p.decoder.acc p.decoder.tools (sent ++ p.frames))
        (sym (ap (λ d. d.acc) h.twins)) h.mirrors

  done-Alike :
      Alike x y
      → (done : Bool)
      → Alike (go_on true done p.decoder (sent ++ p.frames) x) (go_on true done q.decoder [] y)
  done-Alike r true = (refl, same_frames)
  done-Alike r false = r

  round-Alike :
      Alike x y
      → (o : Option TurnError) → p.error ≡ o
      → Alike
          (round p sent (record { sent = sent ++ p.frames; all = true }) o x)
          (round q [] (record { sent = []; all = true }) o y)
  round-Alike r (some e) k = (
    refl,
    subst (λ l. Mirrors p.decoder.acc p.decoder.tools l q.decoder.acc)
        (ap (λ fs. sent ++ fs) (h.silent e k) ∙ append_nil sent) (same_frames),
  )
  round-Alike r none k = rw (← h.done) (done-Alike r p.done)

lines-Alike :
    (c : Codec) (ids : ℕ → String) (i n : ℕ) (sent : List Frame)
    → (d : Decoder) (f : Framer) (a : Accumulated) → Mirrors d.acc d.tools sent a
    → (lines : List String) (e : Ending)
    → Alike
        (consume_lines c ids takes_every i sent (streaming d f) lines e)
        (consume_lines c ids none i [] (twin d a n) lines e)
unfolding consume_lines finish send
lines-Alike c ids i n sent d f a m [] eof = finish-Alike n sent d f a m d.fatal d.done
lines-Alike c ids i n sent d f a m [] broken = (refl, m)
lines-Alike c ids i n sent d f a m (line ∷ lines) e =
    let p = push c (ids i) (streaming d f) line in
    let q = push c (ids i) (twin d a n) line in
    let h = push-Parallel c (ids i) n sent d f a m line in
    let rest =
      lines-Alike c ids (suc i) n (sent ++ p.frames) p.decoder h.framer h.answer h.mirrors lines
        e in
    let streamed : List Frame → Decoder → Consumed =
      λ l w. consume_lines c ids takes_every (suc i) l w lines e in
    let buffered : Decoder → Consumed = λ w. consume_lines c ids none (suc i) [] w lines e in
    let again : p.decoder ≡ streaming p.decoder h.framer =
      ap (λ o. record p.decoder { framer = o }) h.streams in
    let x = streamed (sent ++ p.frames) p.decoder in
    let y = buffered q.decoder in
    let rest' : Alike x y =
      subst (λ w. Alike (streamed (sent ++ p.frames) w) y) (sym again)
        (subst
          (λ w. Alike (streamed (sent ++ p.frames) (streaming p.decoder h.framer)) (buffered w))
          (sym h.twins) rest) in
    let gone : Sent = record { sent = []; all = true } in
    subst
      (λ s. Alike (round p sent s p.error (streamed s.sent p.decoder)) (round q [] gone q.error y))
      (sym (send_every sent p.frames))
      (subst
        (λ o.
          Alike (round p sent (record { sent = sent ++ p.frames; all = true }) p.error x)
            (round q [] gone o y))
        h.error (round-Alike n sent p q h x y rest' p.error refl))

either :
    (b : Bool) (x y x' y' : Consumed)
    → Alike x x'
    → Alike y y'
    → Alike (if b then x else y) (if b then x' else y')
either true x y x' y' h k = h
either false x y x' y' h k = k

-- A streamed turn whose client takes every frame and a buffered turn over the same lines end with the
-- same error or none, and the frames that were sent carry the text, the reasoning and the numbered
-- tool calls of the buffered answer, which agree in finish reason and usage.
pub consume-Alike :
    (c : Codec) (ids : ℕ → String) (f : Framer) (max_event max_response : ℕ) (t : UsageTurns)
    → (lines : List String) (e : Ending)
    → Alike
        (consume c ids takes_every (new_decoder (some f) max_event max_response t) lines e)
        (consume c ids none (new_decoder none max_event max_response t) lines e)
unfolding consume new_decoder
consume-Alike c ids f max_event max_response t lines e =
    let start : Mirrors (empty_answer true) 0 [] (empty_answer false) = record {
      text = refl;
      reasoning = refl;
      calls = refl;
      count = refl;
      discards = refl;
      keeps = refl;
      seen = refl;
      finish = refl;
      usage = refl;
      has_usage = refl;
    } in
    either (eqb max_event 0 || eqb max_response 0) _ _ _ _ (refl, start)
      (lines-Alike c ids 0 0 [] (new_decoder (some f) max_event max_response t) f
        (empty_answer false) start lines e)
