-- ===== src/Decoder/Order.antt =====
-- The order of the frames of a stream: the role first, the finish reason last.
use cmdcode_go.Base.{
  ℕ, ◌≡◌, refl, sym, ap, subst, String, Bool, true, false, not, Option, none, some, List, [], ◌∷◌,
  ◌++◌, All, All-append, if◌then◌else◌, trim_space,
}
use cmdcode_go.Wire.{Codec, WireEvent}
use cmdcode_go.Response.{
  Accumulated, Frame, Framer, Sink, TurnError, openai_usage, nothing, frame, final_frame,
}
use cmdcode_go.Response.Fold.{
  Folded, Verdict, UsageTurns, continues, finished, fails, stays, apply_event,
}
use cmdcode_go.Response.Events.{apply_event_cases}
use cmdcode_go.Decoder.{Decoder, Pushed, push, conclude, counted, sink_of}
use cmdcode_go.Decoder.Lockstep.{streaming, append_assoc_list}
use cmdcode_go.Decoder.Cases.{push_cases, push_line_cases}

-- From a framer that has tagged a frame or not to one that has: the first frame of an untagged one
-- names the role, and no other.
abbrev pub Tags : Bool → List Frame → Bool → Type 0
Tags b [] b' = b ≡ b'
Tags b (f ∷ fs) b' = (f.role ≡ not b) × Tags true fs b'

pub Tags-append :
    (b : Bool) (fs : List Frame) (b' : Bool) (gs : List Frame) (b'' : Bool)
    → Tags b fs b'
    → Tags b' gs b''
    → Tags b (fs ++ gs) b''
Tags-append b [] b' gs b'' h k = subst (λ x. Tags x gs b'') (sym h) k
Tags-append b (f ∷ fs) b' gs b'' h k = (h.0, Tags-append true fs b' gs b'' h.1 k)

-- A frame that is not the last: neither a finish reason nor a usage report.
abbrev pub Plain : Frame → Type 0
Plain f = (f.finish ≡ none) × (f.usage ≡ none)

abbrev OneStep : (Accumulated → Option Sink → Folded) → Type 0
OneStep F =
    (a : Accumulated) (f : Framer) (tools : ℕ)
    → let x = F a (some (record { framer = f; tools = tools; frames = [] })) in
      (k : Sink) × (x.sink ≡ some k)
      × Tags f.sent_role k.frames k.framer.sent_role
      × All Plain k.frames
      × ((e : TurnError) → x.verdict ≡ fails e → k.framer.sent_role ≡ f.sent_role)

quiet-OneStep : (t : UsageTurns) (v : Verdict) → OneStep (λ a k. stays a k t v)
quiet-OneStep t v a f tools = (_, refl, refl, tt, λ e h. refl)

event-OneStep :
    (c : Codec) (fresh : String) (t : UsageTurns) (ev : WireEvent) (line : String)
    → OneStep (λ a k. apply_event c fresh a k t ev line)
event-OneStep c fresh t ev line =
    apply_event_cases OneStep c fresh t ev line (quiet-OneStep t _) (λ e. quiet-OneStep t _)
      (λ s a f tools. (_, refl, (refl, refl), ((refl, refl), tt), λ e h. cc))
      (λ s a f tools. (_, refl, (refl, refl), ((refl, refl), tt), λ e h. cc))
      (λ s a f tools. (_, refl, (refl, refl), ((refl, refl), tt), λ e h. cc))
      (λ a f tools. (_, refl, refl, tt, λ e h. refl))

-- A sequence of frames that ends a turn with the answer `acc`.
pub record Closed (acc : Accumulated) (fs : List Frame) : Type 0 where
  pub before : List Frame
  pub last : Frame
  pub shape : fs ≡ before ++ last ∷ []
  pub plain : All Plain before
  pub reason : last.finish ≡ some acc.finish
  pub reports : last.usage ≡ some (openai_usage acc)

-- What one line adds to a stream.
pub record Spoke (b : Bool) (p : Pushed) : Type 0 where
  pub framer : Framer
  pub streams : p.decoder.framer ≡ some framer
  pub tags : Tags b p.frames framer.sent_role
  pub plain : p.done ≡ false → All Plain p.frames
  pub tagged : p.done ≡ true → framer.sent_role ≡ true
  pub closes : p.done ≡ true → Closed p.decoder.acc p.frames

ending-Tags :
    (k : Sink) (g : Frame) (b : Bool)
    → g.role ≡ false
    → k.framer.sent_role ≡ b
    → Tags b ((if b then [] else frame k.framer nothing none none ∷ []) ++ g ∷ []) true
ending-Tags k g true e q = (e, refl)
ending-Tags k g false e q = (ap not q, (e, refl))

ending_shape :
    (acc : Accumulated) (k : Sink) (b : Bool) (g : Frame)
    → All Plain k.frames
    → g.finish ≡ some acc.finish
    → g.usage ≡ some (openai_usage acc)
    → Closed acc (k.frames ++ ((if b then [] else frame k.framer nothing none none ∷ []) ++ g ∷ []))
ending_shape acc k true g h e u = record {
  before = k.frames;
  last = g;
  shape = refl;
  plain = h;
  reason = e;
  reports = u;
}
ending_shape acc k false g h e u = record {
  before = k.frames ++ frame k.framer nothing none none ∷ [];
  last = g;
  shape = append_assoc_list k.frames (_ ∷ []) (g ∷ []);
  plain = All-append Plain k.frames (_ ∷ []) h ((refl, refl), tt);
  reason = e;
  reports = u;
}

conclude_of-Spoke :
    (b : Bool) (d : Decoder) (r : Folded) (k : Sink) (v : Verdict)
    → Tags b k.frames k.framer.sent_role
    → All Plain k.frames
    → ((e : TurnError) → v ≡ fails e → k.framer.sent_role ≡ b)
    → Spoke b (conclude d (record r { sink = some k }) v)
conclude_of-Spoke b d r k continues t h e = record {
  framer = k.framer;
  streams = refl;
  tags = t;
  plain = λ q. h;
  tagged = λ q. cc;
  closes = λ q. cc;
}
conclude_of-Spoke b d r k finished t h e = record {
  framer = _;
  streams = refl;
  tags = Tags-append b k.frames k.framer.sent_role _ true t (
      ending-Tags k (final_frame k.framer r.acc.finish (openai_usage r.acc)) k.framer.sent_role refl
        refl);
  plain = λ q. cc;
  tagged = λ q. refl;
  closes = λ q. ending_shape r.acc k k.framer.sent_role _ h refl refl;
}
conclude_of-Spoke b d r k (fails x) t h e = record {
  framer = k.framer;
  streams = refl;
  tags = sym (e x refl);
  plain = λ q. tt;
  tagged = λ q. cc;
  closes = λ q. cc;
}

conclude-Spoke :
    (b : Bool) (d : Decoder) (r : Folded) (k : Sink)
    → r.sink ≡ some k
    → Tags b k.frames k.framer.sent_role
    → All Plain k.frames
    → ((e : TurnError) → r.verdict ≡ fails e → k.framer.sent_role ≡ b)
    → Spoke b (conclude d r r.verdict)
conclude-Spoke b d r k s t h e =
    let again : r ≡ record r { sink = some k } = ap (λ o. record r { sink = o }) s in
    subst (λ x. Spoke b (conclude d x r.verdict)) (sym again)
      (conclude_of-Spoke b d r k r.verdict t h e)

silent-Spoke :
    (p : Pushed) (f : Framer)
    → p.decoder.framer ≡ some f
    → p.frames ≡ []
    → p.done ≡ false
    → Spoke f.sent_role p
silent-Spoke p f s e n = record {
  framer = f;
  streams = s;
  tags = subst (λ l. Tags f.sent_role l f.sent_role) (sym e) refl;
  plain = λ q. subst (All Plain) (sym e) tt;
  tagged = λ q. cc;
  closes = λ q. cc;
}

running-Spoke :
    (c : Codec) (fresh : String) (d : Decoder) (f : Framer) (raw : String)
    → d.done ≡ false
    → Spoke f.sent_role (push c fresh (streaming d f) raw)
running-Spoke c fresh d f raw n =
    let x = streaming d f in
    push_cases (Spoke f.sent_role) c fresh x raw (λ e h. silent-Spoke _ f refl refl refl)
      (λ h over. cc)
      (λ h run.
        push_line_cases (Spoke f.sent_role) c fresh x raw (λ w. silent-Spoke _ f refl refl refl)
          (λ w. silent-Spoke _ f refl refl refl) (silent-Spoke _ f refl refl refl)
          (silent-Spoke _ f refl refl refl)
          (λ ev w u.
            let r = apply_event c fresh x.acc (sink_of x (some f)) x.turns ev (trim_space raw) in
            let (k, left, t, plain, e) =
              event-OneStep c fresh x.turns ev (trim_space raw) x.acc f x.tools in
            conclude-Spoke f.sent_role (counted x raw) r k left t plain e))

-- What a line adds to the stream of a running decoder: the role tag goes to the first frame of all,
-- and only the last event gives a finish reason and the usage, in its last frame.
pub push-Spoke :
    (c : Codec) (fresh : String) (d : Decoder) (f : Framer) (raw : String)
    → d.framer ≡ some f
    → d.done ≡ false
    → Spoke f.sent_role (push c fresh d raw)
push-Spoke c fresh d f raw s n =
    subst (λ x. Spoke f.sent_role (push c fresh x raw)) (sym (ap (λ o. record d { framer = o }) s))
      (running-Spoke c fresh d f raw n)
