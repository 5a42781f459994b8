-- ===== src/Decoder/Cases.antt =====
-- The ways in which `push` ends.
use cmdcode_go.Base.{
  String, ◌≡◌, refl, Bool, true, false, Option, none, some, [], Bool-cases, inl, inr, trim_space,
  is_empty, ◌==◌,
}
use cmdcode_go.Wire.{Codec, WireEvent}
use cmdcode_go.Response.{TurnError, size_limit, invalid_event, missing_type}
use cmdcode_go.Response.Fold.{apply_event}
use cmdcode_go.Decoder.{
  Decoder, Pushed, push, push_line, push_running, push_with, conclude, decode, sink_of, counted,
  over_limits, fail, quiet,
}

module _ {ℓ} (P : Pushed → Type ℓ) (c : Codec) (fresh : String) (d : Decoder) (raw : String) where
  module _
      (stopped : (e : TurnError)
        → d.fatal ≡ some e
        → P (record { decoder = d; frames = []; done = false; error = some e }))
      (over : d.fatal ≡ none
        → d.done ≡ true
        → P (record { decoder = d; frames = []; done = true; error = none }))
      (runs : d.fatal ≡ none → d.done ≡ false → P (push_line c fresh d raw)) where
    running_cases : d.fatal ≡ none → (b : Bool) → d.done ≡ b → P (push_running c fresh d raw b)
    running_cases f true q = over f q
    running_cases f false q = runs f q

    fatal_cases : (o : Option TurnError) → d.fatal ≡ o → P (push_with c fresh d raw o)
    fatal_cases (some e) q = stopped e q
    fatal_cases none q = running_cases q d.done refl

    pub push_cases : P (push c fresh d raw)
    unfolding push
    push_cases = fatal_cases d.fatal refl

  -- A line that is over the limits, blank, no event, without a type, or an event.
  module _ (too_long : over_limits (counted d raw) raw ≡ true → P (fail (counted d raw) size_limit))
      (blank : over_limits (counted d raw) raw ≡ false → P (quiet (counted d raw)))
      (no_event : P (fail (counted d raw) invalid_event))
      (no_type : P (fail (counted d raw) missing_type))
      (event : (ev : WireEvent)
        → over_limits (counted d raw) raw ≡ false
        → c.unmarshal_event (trim_space raw) ≡ some ev
        → let r = apply_event c fresh d.acc (sink_of d d.framer) d.turns ev (trim_space raw) in
          P (conclude (counted d raw) r r.verdict)) where
    decode_cases :
        over_limits (counted d raw) raw ≡ false
        → (o : Option WireEvent) → c.unmarshal_event (trim_space raw) ≡ o
        → P (decode c fresh (counted d raw) (trim_space raw) o)
    decode_cases w none q = no_event
    decode_cases w (some ev) q = elim (Bool-cases (ev.kind == "")) [
      | inl bad ↦ simp bad no_type
      | inr good ↦ simp good (event ev w q)
    ]

    pub push_line_cases : P (push_line c fresh d raw)
    unfolding push_line
    push_line_cases = elim (Bool-cases (over_limits (counted d raw) raw)) [
      | inl far ↦ simp far (too_long far)
      | inr within ↦ elim (Bool-cases (is_empty (trim_space raw))) [
        | inl empty ↦ rw (within, empty) (blank within)
        | inr text ↦
            rw (within, text) (decode_cases within (c.unmarshal_event (trim_space raw)) refl)
      ]
    ]
