-- ===== src/Decoder/Lockstep.antt =====
-- A streaming and a buffered decoder that read the same lines.
use text.Mathlib.TextLemmas.{append-nil}
use cmdcode_go.Base.{
  ℕ, String, ◌==◌, ◌≡◌, refl, sym, ap, ◌∙◌, subst, Bool, true, false, Option, none, some, List, [],
  ◌∷◌, ◌++◌, if◌then◌else◌, trim_space, is_empty,
}
use cmdcode_go.Wire.{Codec, WireEvent}
use cmdcode_go.Response.{
  Accumulated, Sink, Frame, Framer, TurnError, missing_type, invalid_event, size_limit, nothing,
  frame, final_frame, openai_usage,
}
use cmdcode_go.Response.Fold.{Folded, Verdict, continues, finished, fails, apply_event}
use cmdcode_go.Decoder.{
  Decoder, Pushed, push, push_line, push_with, push_running, conclude, counted, over_limits, decode,
}
use cmdcode_go.Decoder.Frames.{
  text_of, reasoning_of, calls_of, text_of-snoc, reasoning_of-snoc, calls_of-append,
}
use cmdcode_go.Decoder.Parity.{Mirrors, event-Both, append_nil}

-- The buffered decoder beside a streaming one.
abbrev pub twin : Decoder → Accumulated → ℕ → Decoder
twin d answer n = record d { acc = answer; framer = none; tools = n }

abbrev pub streaming : Decoder → Framer → Decoder
streaming d f = record d { framer = some f }

pub record Parallel (n : ℕ) (sent : List Frame) (p q : Pushed) : Type 0 where
  pub framer : Framer
  pub streams : p.decoder.framer ≡ some framer
  pub answer : Accumulated
  pub twins : q.decoder ≡ twin p.decoder answer n
  pub mirrors : Mirrors p.decoder.acc p.decoder.tools (sent ++ p.frames) answer
  pub error : p.error ≡ q.error
  pub silent : (e : TurnError) → p.error ≡ some e → p.frames ≡ []
  pub done : p.done ≡ q.done

pub append_assoc_list {ℓ} : {A : Type ℓ} (xs ys zs : List A) → xs ++ (ys ++ zs) ≡ (xs ++ ys) ++ zs
append_assoc_list [] ys zs = refl
append_assoc_list (x ∷ xs) ys zs = ap (λ l. x ∷ l) (append_assoc_list xs ys zs)

-- Frames without a body leave what the client has.
Mirrors-snoc :
    (s : Accumulated) (tools : ℕ) (sent : List Frame) (b : Accumulated) (g : Frame)
    → g.body ≡ nothing
    → Mirrors s tools sent b
    → Mirrors s tools (sent ++ g ∷ []) b
Mirrors-snoc s tools sent b g e h = record {
  text = text_of-snoc sent g ∙ simp e (append-nil (text_of sent)) ∙ h.text;
  reasoning = reasoning_of-snoc sent g ∙ simp e (append-nil (reasoning_of sent)) ∙ h.reasoning;
  calls = calls_of-append sent (g ∷ []) ∙ simp e (append_nil (calls_of sent)) ∙ h.calls;
  count = h.count;
  discards = h.discards;
  keeps = h.keeps;
  seen = h.seen;
  finish = h.finish;
  usage = h.usage;
  has_usage = h.has_usage;
}

Mirrors-ending :
    (s : Accumulated) (k : Sink) (sent : List Frame) (b : Accumulated)
    → Mirrors s k.tools (sent ++ k.frames) b
    → (role : Bool)
    → Mirrors s k.tools
        (sent
          ++ (k.frames
              ++ ((if role then [] else frame k.framer nothing none none ∷ [])
                  ++ final_frame k.framer s.finish (openai_usage s) ∷ [])))
        b
Mirrors-ending s k sent b h true =
    subst (λ l. Mirrors s k.tools l b) (sym (append_assoc_list sent k.frames _))
      (Mirrors-snoc s k.tools (sent ++ k.frames) b _ refl h)
Mirrors-ending s k sent b h false =
    subst (λ l. Mirrors s k.tools l b)
      (sym (append_assoc_list sent k.frames _ ∙ append_assoc_list (sent ++ k.frames) (_ ∷ []) _))
      (Mirrors-snoc s k.tools _ b _ refl
        (Mirrors-snoc s k.tools (sent ++ k.frames) b (frame k.framer nothing none none) refl h))

module _ (n : ℕ) (sent : List Frame) (d : Decoder) (f : Framer) (a : Accumulated) where
  conclude_of :
      (r r' : Folded) (k : Sink) (v : Verdict)
      → Mirrors r.acc k.tools (sent ++ k.frames) r'.acc
      → ((e : TurnError) → v ≡ fails e → k.frames ≡ [])
      → Parallel n sent
          (conclude (streaming d f) (record r { sink = some k }) v)
          (conclude (twin d a n) (record r' { sink = none; turns = r.turns }) v)
  conclude_of r r' k continues m none_left = record {
    framer = k.framer;
    streams = refl;
    answer = r'.acc;
    twins = refl;
    mirrors = m;
    error = refl;
    silent = λ e h. cc;
    done = refl;
  }
  conclude_of r r' k finished m none_left = record {
    framer = _;
    streams = refl;
    answer = r'.acc;
    twins = refl;
    mirrors = Mirrors-ending r.acc k sent r'.acc m k.framer.sent_role;
    error = refl;
    silent = λ e h. cc;
    done = refl;
  }
  conclude_of r r' k (fails e) m none_left = record {
    framer = k.framer;
    streams = refl;
    answer = r'.acc;
    twins = refl;
    mirrors = subst (λ l. Mirrors r.acc k.tools (sent ++ l) r'.acc) (none_left e refl) m;
    error = refl;
    silent = λ e h. refl;
    done = refl;
  }

  conclude-Parallel :
      (r r' : Folded) (k : Sink) (v v' : Verdict)
      → v ≡ v'
      → r.turns ≡ r'.turns
      → r'.sink ≡ none
      → r.sink ≡ some k
      → ((e : TurnError) → v ≡ fails e → k.frames ≡ [])
      → Mirrors r.acc k.tools (sent ++ k.frames) r'.acc
      → Parallel n sent (conclude (streaming d f) r v) (conclude (twin d a n) r' v')
  conclude-Parallel r r' k v v' same turns buffered streams none_left m =
      let x' : Folded = record r { sink = some k } in
      let y' : Folded = record r' { sink = none; turns = r.turns } in
      let e : r ≡ x' = ap (λ o. record r { sink = o }) streams in
      let e' : r' ≡ y' =
        ap (λ o. record r' { sink = o }) buffered
        ∙ ap (λ t. record r' { sink = none; turns = t }) (sym turns) in
      let Goal : Folded → Folded → Verdict → Type 0 =
        λ x y w. Parallel n sent (conclude (streaming d f) x v) (conclude (twin d a n) y w) in
      subst (λ x. Goal x r' v') (sym e)
        (subst (λ y. Goal x' y v') (sym e')
          (subst (λ w. Goal x' y' w) same (conclude_of r r' k v m none_left)))

  -- What leaves the two answers alone.
  still :
      (e : Option TurnError) (done : Bool) (fatal : Option TurnError)
      → Mirrors d.acc d.tools sent a
      → Parallel n sent
          (record {
            decoder = record (streaming d f) { fatal = fatal };
            frames = [];
            done = done;
            error = e;
          })
          (record {
            decoder = record (twin d a n) { fatal = fatal };
            frames = [];
            done = done;
            error = e;
          })
  still e done fatal m = record {
    framer = f;
    streams = refl;
    answer = a;
    twins = refl;
    mirrors = rw append_nil m;
    error = refl;
    silent = λ e h. refl;
    done = refl;
  }

  either :
      (b : Bool) {p q p' q' : Pushed}
      → Parallel n sent p p'
      → Parallel n sent q q'
      → Parallel n sent (if b then p else q) (if b then p' else q')
  either true x y = x
  either false x y = y

module _ (c : Codec) (fresh : String) (n : ℕ) (sent : List Frame) (d : Decoder) (f : Framer)
    (a : Accumulated) (m : Mirrors d.acc d.tools sent a) where
  event-Parallel :
      (line : String) (ev : WireEvent) (k : ℕ)
      → Parallel n sent
          (decode c fresh (streaming (record d { consumed = k }) f) line (some ev))
          (decode c fresh (twin (record d { consumed = k }) a n) line (some ev))
  event-Parallel line ev k =
      let r =
        apply_event c fresh d.acc (some (record { framer = f; tools = d.tools; frames = [] }))
          d.turns ev line in
      let r' = apply_event c fresh a none d.turns ev line in
      let (v, t, buffered, left, s, quiet, after) =
        event-Both c fresh d.turns ev line d.acc f d.tools sent a m in
      either n sent d f a (ev.kind == "")
        (still n sent (record d { consumed = k }) f a (some missing_type) false (some missing_type)
          m)
        (conclude-Parallel n sent (record d { consumed = k }) f a r r' left r.verdict r'.verdict v t
          buffered s quiet after)

  decode-Parallel :
      (line : String) (o : Option WireEvent) (k : ℕ)
      → Parallel n sent
          (decode c fresh (streaming (record d { consumed = k }) f) line o)
          (decode c fresh (twin (record d { consumed = k }) a n) line o)
  decode-Parallel line none k =
      still n sent (record d { consumed = k }) f a (some invalid_event) false (some invalid_event) m
  decode-Parallel line (some ev) k = event-Parallel line ev k

  push_line-Parallel :
      (raw : String)
      → Parallel n sent (push_line c fresh (streaming d f) raw) (push_line c fresh (twin d a n) raw)
  unfolding push_line
  push_line-Parallel raw =
      let counting = counted d raw in
      either n sent d f a (over_limits counting raw)
        (still n sent counting f a (some size_limit) false (some size_limit) m)
        (either n sent d f a (is_empty (trim_space raw))
          (still n sent counting f a none false d.fatal m)
          (decode-Parallel (trim_space raw) (c.unmarshal_event (trim_space raw)) counting.consumed))

  running-Parallel :
      (raw : String) (done : Bool)
      → Parallel n sent
          (push_running c fresh (streaming d f) raw done)
          (push_running c fresh (twin d a n) raw done)
  running-Parallel raw true = still n sent d f a none true d.fatal m
  running-Parallel raw false = push_line-Parallel raw

  fatal-Parallel :
      (raw : String) (o : Option TurnError)
      → Parallel n sent
          (push_with c fresh (streaming d f) raw o)
          (push_with c fresh (twin d a n) raw o)
  fatal-Parallel raw (some e) = still n sent d f a (some e) false d.fatal m
  fatal-Parallel raw none = running-Parallel raw d.done

  -- One line leaves a streaming and a buffered decoder beside each other: with the same error or
  -- end, and with an answer that the frames so far carry in full.
  pub push-Parallel :
      (raw : String)
      → Parallel n sent (push c fresh (streaming d f) raw) (push c fresh (twin d a n) raw)
  unfolding push
  push-Parallel raw = fatal-Parallel raw d.fatal
