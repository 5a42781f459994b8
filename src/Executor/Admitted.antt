-- ===== src/Executor/Admitted.antt =====
-- What a turn that is prepared has passed, and what a request that is sent says.
use cmdcode_go.Base.{
  ℕ, ◌≡◌, ◌≢◌, refl, sym, ap, subst, String, ◌==◌, Bool, true, false, Option, none, some, arith,
  eq_iff, if◌then◌else◌, Result, ok, err, fails_if-ok, >>=-eq-ok, ok_inj,
}
use cmdcode_go.Models.{match, allowed, parse_model_name}
use cmdcode_go.Identity.{ExecutorRequest, explicit_session_key}
use cmdcode_go.Session.{Store, Release}
use cmdcode_go.Request.Envelope.{
  ChatRequest, GenerateRequest, EnvelopeError, build_envelope, IsFaithful,
  build_envelope-IsFaithful,
}
use cmdcode_go.Config.Sources.{resolve_api_key}
use cmdcode_go.Executor.{
  Calls, TurnSnapshot, ErrorReply, TurnPrep, check_turn, reserve_session, prepare_turn, filters_of,
  model_allowed, built, build_turn, turn_of, after_checks,
}

-- A key, a model of the catalog that the filters allow, and an envelope that is faithful to the
-- payload in the session that the turn was given.
pub record IsAdmitted (c : Calls) (snap : TurnSnapshot) (attrs : String → String) (now : ℕ)
    (req : ExecutorRequest) (s : Store) (p : TurnPrep) : Type 0 where
  pub key : p.key ≡ resolve_api_key c.machine snap.config attrs
  pub key_given : p.key ≢ ""
  pub upstream : String
  pub known : match snap.models req.model ≡ some upstream
  pub permitted : allowed snap.models upstream (filters_of snap.config) ≡ true
  pub session : String
  pub reserved :
      (reserve_session c now (explicit_session_key c.json req) s).1 ≡ ok (session, p.release)
  pub chat : ChatRequest
  pub payload : c.payload req.payload ≡ some (chat, false)
  pub faithful : IsFaithful c.codec c.schemas c.ids (turn_of c snap req session) chat p.envelope
  pub config : p.config ≡ snap.config

record Checked (c : Calls) (snap : TurnSnapshot) (attrs : String → String) (req : ExecutorRequest)
    (key : String) : Type 0 where
  is_key : key ≡ resolve_api_key c.machine snap.config attrs
  given : key ≢ ""
  upstream : String
  known : match snap.models req.model ≡ some upstream
  permitted : allowed snap.models upstream (filters_of snap.config) ≡ true

chosen :
    (b : Bool) {v u : String} (e : ErrorReply)
    → (if b then ok v else err e) ≡ ok u
    → (b ≡ true) × (v ≡ u)
chosen true e h = (refl, ok_inj h)
chosen false e h = cc

model_allowed-ok :
    (snap : TurnSnapshot) (o : Option String) (u : String)
    → model_allowed snap o ≡ ok u
    → (o ≡ some u) × (allowed snap.models u (filters_of snap.config) ≡ true)
model_allowed-ok snap none u h = cc
model_allowed-ok snap (some v) u h =
    let (y, same) = chosen (allowed snap.models v (filters_of snap.config)) _ h in
    (ap some same, subst (λ x. allowed snap.models x (filters_of snap.config) ≡ true) same y)

check_turn-Checked :
    (c : Calls) (snap : TurnSnapshot) (attrs : String → String) (req : ExecutorRequest)
    (key : String)
    → check_turn c snap attrs req ≡ ok key
    → Checked c snap attrs req key
unfolding check_turn
check_turn-Checked c snap attrs req key h =
    let k = resolve_api_key c.machine snap.config attrs in
    let (given, h₁) = fails_if-ok (k == "") _ _ h in
    let (named, h₂) = fails_if-ok ((parse_model_name req.model).base == "") _ _ h₁ in
    let (upstream, found, same) =
      >>=-eq-ok (model_allowed snap (match snap.models req.model)) _ h₂ in
    let (known, permitted) = model_allowed-ok snap (match snap.models req.model) upstream found in
    let is : k ≡ key = ok_inj same in
    record {
      is_key = sym is;
      given = subst (λ x. x ≢ "") is (ground (arith, eq_iff k ""));
      upstream = upstream;
      known = known;
      permitted = permitted;
    }

-- A payload that an envelope is built of is one whole request.
built_of :
    (c : Calls) (snap : TurnSnapshot) (req : ExecutorRequest) (session : String)
    (o : Option (ChatRequest × Bool)) (g : GenerateRequest)
    → build_envelope c.codec c.schemas c.ids (turn_of c snap req session) o ≡ ok g
    → (chat : ChatRequest) × (o ≡ some (chat, false))
      × IsFaithful c.codec c.schemas c.ids (turn_of c snap req session) chat g
unfolding build_envelope
built_of c snap req session none g h = cc
built_of c snap req session (some (chat, true)) g h = cc
built_of c snap req session (some (chat, false)) g h = (
  chat,
  refl,
  build_envelope-IsFaithful c.codec c.schemas c.ids (turn_of c snap req session) chat g h,
)

admitted :
    (c : Calls) (snap : TurnSnapshot) (attrs : String → String) (now : ℕ) (req : ExecutorRequest)
    (key session : String) (r : Option Release) (s t : Store)
    (e : Result EnvelopeError GenerateRequest) (p : TurnPrep)
    → Checked c snap attrs req key
    → (reserve_session c now (explicit_session_key c.json req) s).1 ≡ ok (session, r)
    → build_envelope c.codec c.schemas c.ids (turn_of c snap req session) (c.payload req.payload)
      ≡ e
    → (built snap now key r t e).1 ≡ ok p
    → IsAdmitted c snap attrs now req s p
admitted c snap attrs now req key session r s t (err e) p ch q g h = cc
admitted c snap attrs now req key session r s t (ok envelope) p ch q g h =
    let (chat, payload, faithful) =
      built_of c snap req session (c.payload req.payload) envelope g in
    subst (IsAdmitted c snap attrs now req s) (ok_inj h) (record {
      key = ch.is_key;
      key_given = ch.given;
      upstream = ch.upstream;
      known = ch.known;
      permitted = ch.permitted;
      session = session;
      reserved = q;
      chat = chat;
      payload = payload;
      faithful = faithful;
      config = refl;
    })

build_turn-IsAdmitted :
    (c : Calls) (snap : TurnSnapshot) (attrs : String → String) (now : ℕ) (req : ExecutorRequest)
    (key : String) (s : Store) (r : Store × Result ErrorReply (String × Option Release))
    (p : TurnPrep)
    → Checked c snap attrs req key
    → reserve_session c now (explicit_session_key c.json req) s ≡ r
    → (build_turn c snap now req key r).1 ≡ ok p
    → IsAdmitted c snap attrs now req s p
build_turn-IsAdmitted c snap attrs now req key s (t, err e) p ch q h = cc
build_turn-IsAdmitted c snap attrs now req key s (t, ok (session, r)) p ch q h =
    admitted c snap attrs now req key session r s t _ p ch (ap (λ x. x.1) q) refl h

after_checks-IsAdmitted :
    (c : Calls) (snap : TurnSnapshot) (attrs : String → String) (now : ℕ) (req : ExecutorRequest)
    (s : Store) (r : Result ErrorReply String) (p : TurnPrep)
    → check_turn c snap attrs req ≡ r
    → (after_checks c snap now req s r).1 ≡ ok p
    → IsAdmitted c snap attrs now req s p
after_checks-IsAdmitted c snap attrs now req s (err e) p ch h = cc
after_checks-IsAdmitted c snap attrs now req s (ok key) p ch h =
    build_turn-IsAdmitted c snap attrs now req key s _ p
      (check_turn-Checked c snap attrs req key ch) refl h

-- A turn is prepared only with an API key, for a model that the catalog has under the requested name
-- and the configured filters allow, and with an envelope that is faithful to the one request in its
-- payload, in the session that the store gave to the conversation which the request names, or in a
-- fresh one if it names none; its release is that of the store's grant.
pub prepare_turn-IsAdmitted :
    (c : Calls) (snap : TurnSnapshot) (attrs : String → String) (now : ℕ) (req : ExecutorRequest)
    (s : Store) (p : TurnPrep)
    → (prepare_turn c snap attrs now req s).1 ≡ ok p
    → IsAdmitted c snap attrs now req s p
unfolding prepare_turn
prepare_turn-IsAdmitted c snap attrs now req s p h =
    after_checks-IsAdmitted c snap attrs now req s (check_turn c snap attrs req) p refl h
