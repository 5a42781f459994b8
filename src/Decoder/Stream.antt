-- ===== src/Decoder/Stream.antt =====
-- A whole stream, as its client receives it.
use cmdcode_go.Base.{
  ℕ, suc, ◌≡◌, refl, sym, ap, ◌∙◌, subst, String, Bool, true, false, ◌||◌, Option, none, some, List,
  [], ◌∷◌, ◌++◌, All, All-append, eqb, arith, Bool-cases, inl, inr,
}
use cmdcode_go.Wire.{Codec}
use cmdcode_go.Response.{Frame, Framer, TurnError}
use cmdcode_go.Response.Fold.{UsageTurns}
use cmdcode_go.Decoder.{Decoder, Pushed, push, finish, finish_with, new_decoder}
use cmdcode_go.Decoder.Lockstep.{append_assoc_list}
use cmdcode_go.Decoder.Parity.{append_nil}
use cmdcode_go.Decoder.Order.{Tags, Tags-append, Plain, Closed, Spoke, push-Spoke}
use cmdcode_go.Decoder.Protocol.{push-Runs}
use cmdcode_go.Decoder.Consume.{
  Ending, eof, broken, Consumed, Sent, send, send_to, consume_lines, consume, round, go_on, at_end,
}

send_all :
    (accepts : List Frame → Frame → Bool) (sent fs : List Frame)
    → (send_to accepts sent fs).all ≡ true
    → (send_to accepts sent fs).sent ≡ sent ++ fs
unfolding send_to
send_all accepts sent [] h = sym (append_nil sent)
send_all accepts sent (f ∷ fs) h = elim (Bool-cases (accepts sent f)) [
  | inl y ↦ simp y (
      send_all accepts (sent ++ f ∷ []) fs (ground arith)
      ∙ sym (append_assoc_list sent (f ∷ []) fs))
  | inr n ↦ ground arith
]

-- The frames of a turn that succeeded.
abbrev pub Complete : Consumed → Type 0
Complete r = r.error ≡ none → Tags false r.sent true × Closed r.decoder.acc r.sent

Closed-after :
    (p : Pushed) (sent fs : List Frame)
    → All Plain sent
    → Closed p.decoder.acc fs
    → Closed p.decoder.acc (sent ++ fs)
Closed-after p sent fs h k = record {
  before = sent ++ k.before;
  last = k.last;
  shape = ap (λ l. sent ++ l) k.shape ∙ append_assoc_list sent k.before (k.last ∷ []);
  plain = All-append Plain sent k.before h k.plain;
  reason = k.reason;
  reports = k.reports;
}

module _ (p : Pushed) (b : Bool) (sent : List Frame) (h : Spoke b p) (t : Tags false sent b)
    (plain : All Plain sent) (rest : Consumed) where
  ends_or_goes :
      (done : Bool)
      → p.done ≡ done
      → (p.done ≡ false → Complete rest)
      → Complete (go_on true done p.decoder (sent ++ p.frames) rest)
  ends_or_goes true q k e = (
    subst (Tags false (sent ++ p.frames)) (h.tagged q)
        (Tags-append false sent b p.frames h.framer.sent_role t h.tags),
    Closed-after p sent p.frames plain (h.closes q),
  )
  ends_or_goes false q k e = k q e

  sent_or_refused :
      (every : Bool) (out : List Frame)
      → (every ≡ true → out ≡ sent ++ p.frames)
      → (p.done ≡ false → every ≡ true → Complete rest)
      → Complete (go_on every p.done p.decoder out rest)
  sent_or_refused false out f k = λ e. cc
  sent_or_refused true out f k =
      subst (λ l. Complete (go_on true p.done p.decoder l rest)) (sym (f refl))
        (ends_or_goes p.done refl (λ q. k q refl))

  round-Complete :
      (s : Sent) (o : Option TurnError)
      → (s.all ≡ true → s.sent ≡ sent ++ p.frames)
      → (p.done ≡ false → s.all ≡ true → Complete rest)
      → Complete (round p sent s o rest)
  round-Complete s (some x) f k = λ e. cc
  round-Complete s none f k = sent_or_refused s.all s.sent f k

no_end :
    (d : Decoder) (sent : List Frame) (o : Option TurnError) (b : Bool)
    → b ≡ false
    → Complete (at_end sent (finish_with d o b))
no_end d sent (some e) b q h = cc
no_end d sent none true q h = cc
no_end d sent none false q h = cc

consume_lines-Complete :
    (c : Codec) (ids : ℕ → String) (accepts : List Frame → Frame → Bool) (i : ℕ)
    → (sent : List Frame) (d : Decoder) (f : Framer) → d.framer ≡ some f
    → d.done ≡ false
    → Tags false sent f.sent_role
    → All Plain sent
    → (lines : List String) (e : Ending)
    → Complete (consume_lines c ids (some accepts) i sent d lines e)
unfolding consume_lines finish send
consume_lines-Complete c ids accepts i sent d f s n t h [] eof = no_end d sent d.fatal d.done n
consume_lines-Complete c ids accepts i sent d f s n t h [] broken = λ q. cc
consume_lines-Complete c ids accepts i sent d f s n t h (line ∷ lines) e =
    let p = push c (ids i) d line in
    let spoke = push-Spoke c (ids i) d f line s n in
    let out = send_to accepts sent p.frames in
    let whole = send_all accepts sent p.frames in
    round-Complete p f.sent_role sent spoke t h
      (consume_lines c ids (some accepts) (suc i) out.sent p.decoder lines e) out p.error whole
      (λ runs every.
        consume_lines-Complete c ids accepts (suc i) out.sent p.decoder spoke.framer spoke.streams
          (push-Runs c (ids i) d line n runs)
          (subst (λ l. Tags false l spoke.framer.sent_role) (sym (whole every))
            (Tags-append false sent f.sent_role p.frames spoke.framer.sent_role t spoke.tags))
          (subst (All Plain) (sym (whole every))
            (All-append Plain sent p.frames h (spoke.plain runs)))
          lines e)

every_consume-Complete :
    (c : Codec) (ids : ℕ → String) (accepts : List Frame → Frame → Bool) (f : Framer)
    → (max_event max_response : ℕ) (t : UsageTurns) (lines : List String) (e : Ending)
    → f.sent_role ≡ false
    → Complete
        (consume c ids (some accepts) (new_decoder (some f) max_event max_response t) lines e)
unfolding consume new_decoder
every_consume-Complete c ids accepts f max_event max_response t lines e fresh =
    elim (Bool-cases (eqb max_event 0 || eqb max_response 0)) [
      | inl bad ↦ simp bad (λ h. cc)
      | inr good ↦ simp good (
          consume_lines-Complete c ids accepts 0 [] (new_decoder (some f) max_event max_response t)
            f refl refl (sym fresh) tt lines e)
    ]

-- Whatever the input and the client are, the frames of a streamed turn without an error, from a framer
-- that has sent nothing, name the role in the first frame and in no other, and the last frame and no
-- other has a finish reason or a usage report, which are those of the answer.
pub consume-Complete :
    (c : Codec) (ids : ℕ → String) (accepts : List Frame → Frame → Bool) (f : Framer)
    → (max_event max_response : ℕ) (t : UsageTurns) (lines : List String) (e : Ending)
    → f.sent_role ≡ false
    → let r =
        consume c ids (some accepts) (new_decoder (some f) max_event max_response t) lines e in
      r.error ≡ none → Tags false r.sent true × Closed r.decoder.acc r.sent
consume-Complete c ids accepts f max_event max_response t lines e fresh =
    every_consume-Complete c ids accepts f max_event max_response t lines e fresh
