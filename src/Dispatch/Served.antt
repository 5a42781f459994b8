-- ===== src/Dispatch/Served.antt =====
-- go/dispatch.go, `routeModel`, beside `prepareTurn` of go/executor.go.
use cmdcode_go.Base.{
  ◌≡◌, refl, String, true, Option, none, some, ok, err, Result, inl, inr, ℕ, sym, ap, ◌∙◌,
}
use cmdcode_go.Identity.{ExecutorRequest, explicit_session_key}
use cmdcode_go.Session.{Key, Store, Outcome, granted, refused, dangling, Release, acquire}
use cmdcode_go.Models.{match, parse_model_name}
use cmdcode_go.Request.Envelope.{GenerateRequest, EnvelopeError, build_envelope}
use cmdcode_go.Executor.{
  Calls, TurnSnapshot, ErrorReply, session_busy, check_turn, turn_of, reserved, reserve_session,
  built, build_turn, after_checks, prepare_turn,
}
use cmdcode_go.Dispatch.{route_model}
use cmdcode_go.Dispatch.Routed.{
  IsRouted, IsRefusal, routes-IsRouted, err_inj, check_turn-refuses, envelope_refused,
}

reserved_refused :
    (o : Store × Outcome) (t : Store) (e : ErrorReply) → reserved o ≡ (t, err e) → e ≡ session_busy
reserved_refused (s, granted id handle) t e h = cc
reserved_refused (s, refused) t e h = sym (err_inj (ap (λ x. x.1) h))
reserved_refused (s, dangling) t e h = sym (err_inj (ap (λ x. x.1) h))

reserve_refused :
    (c : Calls) (now : ℕ) (key : Option Key) (s t : Store) (e : ErrorReply)
    → reserve_session c now key s ≡ (t, err e)
    → e ≡ session_busy
reserve_refused c now none s t e h = cc
reserve_refused c now (some key) s t e h = reserved_refused (acquire key now c.entry_uuid s) t e h

module _ (c : Calls) (snap : TurnSnapshot) (now : ℕ) (req : ExecutorRequest) (e : ErrorReply)
    (r : IsRouted snap req.model)
    (again : (parse_model_name (parse_model_name req.model).base).base
      ≡ (parse_model_name req.model).base) where
  built_refused :
      (key session : String) (o : Option Release) (s : Store)
      (b : Result EnvelopeError GenerateRequest)
      → build_envelope c.codec c.schemas c.ids (turn_of c snap req session) (c.payload req.payload)
        ≡ b
      → (built snap now key o s b).1 ≡ err e
      → IsRefusal c req e
  built_refused key session o s (ok envelope) q h = cc
  built_refused key session o s (err x) q h = inr (
      inr (
        inr (
          x,
          envelope_refused c snap req session r again (c.payload req.payload) x refl q,
          sym (err_inj h),
        )))

  build_turn-refused :
      (key : String) (k : Option Key) (s : Store)
      (o : Store × Result ErrorReply (String × Option Release))
      → reserve_session c now k s ≡ o
      → (build_turn c snap now req key o).1 ≡ err e
      → IsRefusal c req e
  build_turn-refused key k s (t, err d) q h =
      inr (inr (inl (sym (err_inj h) ∙ reserve_refused c now k s t d q)))
  build_turn-refused key k s (t, ok (session, o)) q h = built_refused key session o t _ refl h

  after_checks-refused :
      (attrs : String → String) (s : Store) (checked : Result ErrorReply String)
      → check_turn c snap attrs req ≡ checked
      → (after_checks c snap now req s checked).1 ≡ err e
      → IsRefusal c req e
  after_checks-refused attrs s (err d) q h =
      elim (check_turn-refuses c snap attrs req e r (q ∙ ap err (err_inj h))) [
        | inl k ↦ inl k
        | inr n ↦ inr (inl n)
      ]
  after_checks-refused attrs s (ok key) q h =
      build_turn-refused key (explicit_session_key c.json req) s _ refl h

-- A turn on a model that the plugin says it handles, under a name whose base is not a name with a
-- prefix or a suffix again, is never refused for the model: neither as unknown, nor as disabled, nor
-- for the effort level in the name's suffix. What may refuse it is a missing API key, an empty name, a
-- busy conversation or an error of the payload, which is about an effort level only if the payload
-- asks for one and the name for none.
pub route_model-served :
    (c : Calls) (snap : TurnSnapshot) (attrs : String → String) (now : ℕ) (req : ExecutorRequest)
    (s : Store) (e : ErrorReply)
    → route_model snap (some req.model) ≡ true
    → (parse_model_name (parse_model_name req.model).base).base ≡ (parse_model_name req.model).base
    → (prepare_turn c snap attrs now req s).1 ≡ err e
    → IsRefusal c req e
unfolding route_model prepare_turn
route_model-served c snap attrs now req s e routed again h =
    after_checks-refused c snap now req e
      (routes-IsRouted snap req.model (match snap.models req.model) refl routed) again attrs s
      (check_turn c snap attrs req) refl h
