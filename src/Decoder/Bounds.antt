-- ===== src/Decoder/Bounds.antt =====
-- The limits on the bytes of a line and of a response.
use cmdcode_go.Base.{
  ℕ, ◌+◌, ◌≤◌, ◌≡◌, String, len, refl, true, false, Option, none, some, arith, trim_space,
}
use cmdcode_go.Wire.{Codec}
use cmdcode_go.Response.{Sink}
use cmdcode_go.Response.Fold.{Folded, Verdict, continues, finished, fails, apply_event}
use cmdcode_go.Decoder.{Decoder, Pushed, push, conclude, keep_sink, counted, over_limits, sink_of}
use cmdcode_go.Decoder.Cases.{push_cases, push_line_cases}

-- What a line costs that the decoder takes: nothing after the last event, else its bytes and one, and
-- then both limits hold.
abbrev pub IsBounded : String → Decoder → Pushed → Type 0
IsBounded raw d p =
    (p.decoder.max_event_bytes ≡ d.max_event_bytes)
    × (p.decoder.max_response_bytes ≡ d.max_response_bytes)
    × (p.error ≡ none
        → d.done ≡ false
        → (p.decoder.consumed ≡ d.consumed + len raw + 1)
          × (p.decoder.consumed ≤ d.max_response_bytes)
          × (len raw ≤ d.max_event_bytes))
    × (d.done ≡ true → p.decoder.consumed ≡ d.consumed)

keep_sink-limits :
    (d : Decoder) (r : Folded) (k : Option Sink)
    → ((keep_sink d r k).max_event_bytes ≡ d.max_event_bytes)
      × ((keep_sink d r k).max_response_bytes ≡ d.max_response_bytes)
      × ((keep_sink d r k).consumed ≡ d.consumed)
keep_sink-limits d r none = (refl, refl, refl)
keep_sink-limits d r (some k) = (refl, refl, refl)

within :
    (raw : String) (d : Decoder) (n : ℕ)
    → over_limits (counted d raw) raw ≡ false
    → n ≡ d.consumed + len raw + 1
    → (n ≡ d.consumed + len raw + 1) × (n ≤ d.max_response_bytes) × (len raw ≤ d.max_event_bytes)
within raw d n w e = (e, ground arith, ground arith)

conclude-IsBounded :
    (raw : String) (d : Decoder) (r : Folded) (v : Verdict)
    → d.done ≡ false
    → over_limits (counted d raw) raw ≡ false
    → IsBounded raw d (conclude (counted d raw) r v)
conclude-IsBounded raw d r continues n w =
    let (a, b, e) = keep_sink-limits (counted d raw) r r.sink in
    (a, b, λ ok run. within raw d _ w e, λ h. cc)
conclude-IsBounded raw d r finished n w =
    let (a, b, e) = keep_sink-limits (counted d raw) r r.sink in
    (a, b, λ ok run. within raw d _ w e, λ h. cc)
conclude-IsBounded raw d r (fails x) n w =
    let (a, b, e) = keep_sink-limits (counted d raw) r r.sink in (a, b, λ h. cc, λ h. cc)

push-IsBounded :
    (c : Codec) (fresh : String) (d : Decoder) (raw : String) → IsBounded raw d (push c fresh d raw)
push-IsBounded c fresh d raw =
    push_cases (IsBounded raw d) c fresh d raw (λ e f. (refl, refl, λ h. cc, λ h. refl))
      (λ f n. (refl, refl, λ h m. cc, λ h. refl))
      (λ f n.
        push_line_cases (IsBounded raw d) c fresh d raw (λ w. (refl, refl, λ h. cc, λ h. cc))
          (λ w. (refl, refl, λ h m. within raw d _ w refl, λ h. cc)) (refl, refl, λ h. cc, λ h. cc)
          (refl, refl, λ h. cc, λ h. cc)
          (λ ev w u.
            let r = apply_event c fresh d.acc (sink_of d d.framer) d.turns ev (trim_space raw) in
            conclude-IsBounded raw d r r.verdict n w))

-- A line that a running decoder takes without an error costs its bytes and one more, is within the
-- limit of a line, and leaves the total within the limit of the response.
pub push-le-limits :
    (c : Codec) (fresh : String) (d : Decoder) (raw : String)
    → d.done ≡ false
    → (push c fresh d raw).error ≡ none
    → ((push c fresh d raw).decoder.consumed ≡ d.consumed + len raw + 1)
      × ((push c fresh d raw).decoder.consumed ≤ d.max_response_bytes)
      × (len raw ≤ d.max_event_bytes)
push-le-limits c fresh d raw run accepted = (push-IsBounded c fresh d raw).2 accepted run
