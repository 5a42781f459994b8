-- ===== src/Decoder/Stops.antt =====
-- How a decoder stops, and that it stays stopped.
use cmdcode_go.Base.{◌≡◌, refl, String, true, false, Option, none, some, [], arith, trim_space}
use cmdcode_go.Wire.{Codec}
use cmdcode_go.Response.{TurnError, Sink}
use cmdcode_go.Response.Fold.{Folded, Verdict, continues, finished, fails, apply_event}
use cmdcode_go.Decoder.Cases.{push_cases, push_line_cases}
use cmdcode_go.Decoder.{Decoder, Pushed, push, push_line, conclude, sink_of, counted}

-- After an error and after the last event.
abbrev pub StaysStopped : Codec → Pushed → Type 0
StaysStopped c p =
    ((e : TurnError)
      → p.error ≡ some e
      → (fresh line : String)
      → push c fresh p.decoder line
        ≡ record { decoder = p.decoder; frames = []; done = false; error = some e })
    × (p.done ≡ true
        → (fresh line : String)
        → push c fresh p.decoder line
          ≡ record { decoder = p.decoder; frames = []; done = true; error = none })

conclude-StaysStopped :
    (c : Codec) (d : Decoder) (r : Folded) (k : Option Sink) (v : Verdict)
    → d.fatal ≡ none
    → r.sink ≡ k
    → StaysStopped c (conclude d r v)
unfolding push
conclude-StaysStopped c d r none continues f q = (λ e h. cc, λ h. cc)
conclude-StaysStopped c d r none finished f q = (λ e h. cc, λ h fresh line. ground arith)
conclude-StaysStopped c d r none (fails x) f q = (λ e h fresh line. ground arith, λ h. cc)
conclude-StaysStopped c d r (some k) continues f q = (λ e h. cc, λ h. cc)
conclude-StaysStopped c d r (some k) finished f q = (λ e h. cc, λ h fresh line. ground arith)
conclude-StaysStopped c d r (some k) (fails x) f q = (λ e h fresh line. ground arith, λ h. cc)

push_line-StaysStopped :
    (c : Codec) (fresh : String) (d : Decoder) (raw : String)
    → d.fatal ≡ none
    → StaysStopped c (push_line c fresh d raw)
unfolding push
push_line-StaysStopped c fresh d raw f =
    push_line_cases (StaysStopped c) c fresh d raw
      (λ h. (λ e h fresh' line'. ground arith, λ h. cc)) (λ w. (λ e h. cc, λ h. cc))
      (λ e h fresh' line'. ground arith, λ h. cc) (λ e h fresh' line'. ground arith, λ h. cc)
      (λ ev h g.
        let r = apply_event c fresh d.acc (sink_of d d.framer) d.turns ev (trim_space raw) in
        conclude-StaysStopped c (counted d raw) r r.sink r.verdict f refl)

push-StaysStopped :
    (c : Codec) (fresh : String) (d : Decoder) (line : String)
    → StaysStopped c (push c fresh d line)
unfolding push
push-StaysStopped c fresh d line =
    push_cases (StaysStopped c) c fresh d line (λ x f. (λ e h fresh' line'. ground arith, λ h. cc))
      (λ f n. (λ e h. cc, λ h fresh' line'. ground arith))
      (λ f n. push_line-StaysStopped c fresh d line f)

-- Once a line got an error, every later line gets the same error, and nothing else happens.
pub push_after_error :
    (c : Codec) (fresh : String) (d : Decoder) (line : String) (e : TurnError)
    → (push c fresh d line).error ≡ some e
    → (fresh' line' : String)
    → push c fresh' (push c fresh d line).decoder line' ≡ record {
      decoder = (push c fresh d line).decoder;
      frames = [];
      done = false;
      error = some e;
    }
push_after_error c fresh d line = (push-StaysStopped c fresh d line).0

-- Once a line has ended the turn, every later line is ignored: no frame, no error and no change.
pub push_after_end :
    (c : Codec) (fresh : String) (d : Decoder) (line : String)
    → (push c fresh d line).done ≡ true
    → (fresh' line' : String)
    → push c fresh' (push c fresh d line).decoder line'
      ≡ record { decoder = (push c fresh d line).decoder; frames = []; done = true; error = none }
push_after_end c fresh d line = (push-StaysStopped c fresh d line).1
