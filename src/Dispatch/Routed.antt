-- ===== src/Dispatch/Routed.antt =====
-- go/dispatch.go, `routeModel`, beside the checks of `prepareTurn` of go/executor.go and the envelope
-- of go/request.go.
use cmdcode_go.Base.{
  ◌≡◌, ◌≢◌, refl, String, ◌==◌, Bool, true, false, Option, none, some, if◌then◌else◌, ok, err,
  Result, ◌>>=◌, ◌⊎◌, inl, inr, Bool-cases, sym, ap, ◌∙◌, subst, to_lower,
}
use cmdcode_go.Config.Sources.{resolve_api_key}
use cmdcode_go.Identity.{ExecutorRequest}
use cmdcode_go.Models.{ModelSnapshot, Selection, match_key, match, allowed, parse_model_name}
use cmdcode_go.Models.Effort.{EffortError, reasoning_effort}
use cmdcode_go.Request.Convert.{to_wire_messages}
use cmdcode_go.Request.Tools.{to_wire_tools}
use cmdcode_go.Request.Envelope.{
  ChatRequest, Turn, EnvelopeError, bad_effort, bad_messages, bad_tools, as_error, selected,
  selection_of, envelope_of, build_envelope,
}
use cmdcode_go.Executor.{
  Calls, TurnSnapshot, ErrorReply, said, cause, error_envelope, request_error_envelope,
  session_busy, filters_of, check_turn, turn_of,
}
use cmdcode_go.Dispatch.{succeeds, takes_suffix, routes}

-- What a positive answer has found.
pub record IsRouted (snap : TurnSnapshot) (name : String) : Type 0 where
  pub canonical : String
  pub known : match snap.models name ≡ some canonical
  pub permitted : allowed snap.models canonical (filters_of snap.config) ≡ true
  pub suffix : takes_suffix snap.models name canonical ≡ true

both : (a b : Bool) → (if a then b else false) ≡ true → (a ≡ true) × (b ≡ true)
both true b h = (refl, h)
both false b h = cc

pub routes-IsRouted :
    (snap : TurnSnapshot) (name : String) (o : Option String)
    → match snap.models name ≡ o
    → routes snap name o ≡ true
    → IsRouted snap name
routes-IsRouted snap name none m h = cc
routes-IsRouted snap name (some canonical) m h =
    let (permitted, suffix) = both (allowed snap.models canonical (filters_of snap.config)) _ h in
    record { canonical = canonical; known = m; permitted = permitted; suffix = suffix }

abbrev no_key : ErrorReply
no_key = error_envelope "missing_api_key" "cmdcode-go: no API key configured"

abbrev no_model : ErrorReply
no_model = request_error_envelope "missing_model" (said "cmdcode-go: empty model")

-- The effort level of the payload itself is what counts: the name has none.
pub record AsksLevel (c : Calls) (req : ExecutorRequest) : Type 0 where
  pub chat : ChatRequest
  pub level : String
  pub payload : c.payload req.payload ≡ some (chat, false)
  pub asked : chat.reasoning_effort ≡ some level
  pub unsuffixed : (parse_model_name req.model).suffix ≡ none

-- An error of the envelope that is not about the effort level, or is about the payload's own.
abbrev pub IsOfPayload : Calls → ExecutorRequest → EnvelopeError → Type 0
IsOfPayload c req x = ((y : EffortError) → x ≢ bad_effort y) ⊎ AsksLevel c req

-- The refusals that a turn on a routed model may still meet: none is about the model.
abbrev pub IsRefusal : Calls → ExecutorRequest → ErrorReply → Type 0
IsRefusal c req e =
    (e ≡ no_key)
    ⊎ (e ≡ no_model)
    ⊎ (e ≡ session_busy)
    ⊎ ((x : EnvelopeError) × IsOfPayload c req x
        × (e ≡ request_error_envelope "invalid_request" (cause x)))

pub err_inj : {E A : Type 0} {a b : E} → ◌≡◌ {A = Result E A} (err a) (err b) → a ≡ b
err_inj same = cc

ok_err : {E A : Type 0} {a : A} {e : E} → ◌≢◌ {A = Result E A} (ok a) (err e)
ok_err same = cc

pub check_turn-refuses :
    (c : Calls) (snap : TurnSnapshot) (attrs : String → String) (req : ExecutorRequest)
    (e : ErrorReply)
    → IsRouted snap req.model
    → check_turn c snap attrs req ≡ err e
    → (e ≡ no_key) ⊎ (e ≡ no_model)
unfolding check_turn
check_turn-refuses c snap attrs req e r h =
    elim (Bool-cases (resolve_api_key c.machine snap.config attrs == "")) [
      | inl k ↦ inl (sym (err_inj (subst (λ x. x ≡ err e) (simp k refl) h)))
      | inr k ↦ elim (Bool-cases ((parse_model_name req.model).base == "")) [
        | inl n ↦ inr (sym (err_inj (subst (λ x. x ≡ err e) (simp (k, n) refl) h)))
        | inr n ↦
            let passes : check_turn c snap attrs req
                ≡ ok (resolve_api_key c.machine snap.config attrs) =
              simp (k, n, r.known, r.permitted) refl in
            absurd (ok_err (sym passes ∙ h))
      ]
    ]

not_taken :
    (r : Result EffortError (Option String)) (y : EffortError) → succeeds r ≡ true → r ≢ err y
not_taken (ok level) y took h = cc
not_taken (err e) y took h = cc

effort_of_parts :
    (s : ModelSnapshot) (base : String) (suffix body : Option String) (y : EffortError)
    → succeeds (reasoning_effort s (record { base = base; suffix = suffix }) none) ≡ true
    → reasoning_effort s (record { base = base; suffix = suffix }) body ≡ err y
    → (level : String) × (body ≡ some level) × (suffix ≡ none)
unfolding reasoning_effort
effort_of_parts s base none none y took h = cc
effort_of_parts s base none (some level) y took h = (level, refl, refl)
effort_of_parts s base (some raw) body y took h =
    absurd
      (not_taken (reasoning_effort s (record { base = base; suffix = some raw }) none) y took h)

-- The effort level of a name with a suffix, or of a payload without a level, is what the router took.
effort_taken :
    (s : ModelSnapshot) (selection : Selection) (body : Option String) (y : EffortError)
    → succeeds (reasoning_effort s selection none) ≡ true
    → reasoning_effort s selection body ≡ err y
    → (level : String) × (body ≡ some level) × (selection.suffix ≡ none)
effort_taken s selection body y took h =
    effort_of_parts s selection.base selection.suffix body y took h

-- The model of the envelope is the router's, where the name's base is no name with a prefix or a
-- suffix again.
selection_routed :
    (t : Turn) (canonical : String)
    → (parse_model_name (parse_model_name t.model).base).base ≡ (parse_model_name t.model).base
    → match t.models t.model ≡ some canonical
    → selection_of t ≡ record (parse_model_name t.model) { base = canonical }
unfolding selection_of match
selection_routed t canonical again known =
    let selection = parse_model_name t.model in
    let key : String → Option String =
      λ n. match_key t.models (to_lower n) (t.models.by_id.get (to_lower n)) in
    ap (selected t.models selection) (ap key again ∙ known)

as_error-effort :
    {A : Type 0} (r : Result EffortError A) (x : EnvelopeError)
    → as_error bad_effort r ≡ err x
    → (y : EffortError) × (r ≡ err y)
as_error-effort (ok a) x h = cc
as_error-effort (err y) x h = (y, refl)

as_error-other :
    {E A : Type 0} (f : E → EnvelopeError) (r : Result E A) (x : EnvelopeError)
    → ((e : E) (y : EffortError) → f e ≢ bad_effort y)
    → as_error f r ≡ err x
    → (y : EffortError) → x ≢ bad_effort y
as_error-other f (ok a) x apart h y = cc
as_error-other f (err e) x apart h y = λ q. apart e y (err_inj h ∙ q)

-- An error of a chain is that of its first action, or of what comes next.
>>=-eq-err :
    {E X Y : Type 0} (r : Result E X) (f : X → Result E Y) (e : E)
    → (r >>= f) ≡ err e
    → (r ≡ err e) ⊎ ((x : X) × (f x ≡ err e))
>>=-eq-err (err d) f e h = inl (ap err (err_inj h))
>>=-eq-err (ok x) f e h = inr (x, h)

-- The envelope of a routed model fails for the payload only.
module _ (c : Calls) (snap : TurnSnapshot) (req : ExecutorRequest) (session : String)
    (r : IsRouted snap req.model)
    (again : (parse_model_name (parse_model_name req.model).base).base
      ≡ (parse_model_name req.model).base) where
  effort_refused :
      (chat : ChatRequest) (y : EffortError)
      → c.payload req.payload ≡ some (chat, false)
      → reasoning_effort snap.models
          (selection_of (turn_of c snap req session))
          chat.reasoning_effort
        ≡ err y
      → AsksLevel c req
  effort_refused chat y payload h =
      let same = selection_routed (turn_of c snap req session) r.canonical again r.known in
      let (level, asked, unsuffixed) =
        effort_taken snap.models (record (parse_model_name req.model) { base = r.canonical })
          chat.reasoning_effort y r.suffix
          (subst (λ x. reasoning_effort snap.models x chat.reasoning_effort ≡ err y) same h) in
      record {
        chat = chat;
        level = level;
        payload = payload;
        asked = asked;
        unsuffixed = unsuffixed;
      }

  pub envelope_refused :
      (o : Option (ChatRequest × Bool)) (x : EnvelopeError)
      → c.payload req.payload ≡ o
      → build_envelope c.codec c.schemas c.ids (turn_of c snap req session) o ≡ err x
      → IsOfPayload c req x
  unfolding build_envelope envelope_of
  envelope_refused none x q h = inl (λ y p. cc)
  envelope_refused (some (chat, true)) x q h = inl (λ y p. cc)
  envelope_refused (some (chat, false)) x q h =
      let t = turn_of c snap req session in
      let effort = reasoning_effort t.models (selection_of t) chat.reasoning_effort in
      elim (>>=-eq-err (as_error bad_effort effort) _ x h) [
        | inl e ↦
            let (y, failed) = as_error-effort effort x e in inr (effort_refused chat y q failed)
        | inr (level, h₁) ↦
            elim (>>=-eq-err (as_error bad_messages (to_wire_messages c.codec c.ids chat.messages))
              _ x h₁) [
                | inl e ↦ inl (as_error-other bad_messages _ x (λ d y p. cc) e)
                | inr (converted, h₂) ↦
                    elim (>>=-eq-err (as_error bad_tools (to_wire_tools c.schemas chat.tools)) _ x
                      h₂) [
                        | inl e ↦ inl (as_error-other bad_tools _ x (λ d y p. cc) e)
                        | inr (tools, h₃) ↦ cc
                      ]
              ]
      ]
