-- ===== src/Executor/Balanced.antt =====
-- Every turn gives back the conversation that it takes.
use cmdcode_go.Base.{
  ℕ, ◌≡◌, refl, String, ◌==◌, Bool, false, Option, none, some, List, arith, Result, ok, err,
  Bool-cases, inl, inr,
}
use cmdcode_go.Identity.{ExecutorRequest, explicit_session_key}
use cmdcode_go.Session.{Key, Store, Outcome, granted, refused, dangling, acquire, Release}
use cmdcode_go.Session.Invariant.{Inv}
use cmdcode_go.Session.Cases.{acquire-Inv, release-Inv}
use cmdcode_go.Session.Busy.{in_use, Counts, acquire-Counts, release-in_use}
use cmdcode_go.Request.Envelope.{GenerateRequest, EnvelopeError}
use cmdcode_go.Response.{Frame, Accumulated}
use cmdcode_go.Gateway.{HttpResponse}
use cmdcode_go.Executor.{
  Calls, TurnSnapshot, ErrorReply, TurnPrep, check_turn, prepare_turn, run_release, reserved,
  reserve_session, built, build_turn, after_checks,
}
use cmdcode_go.Executor.Run.{
  Failure, execute_non_stream, execute_prepared, execute_stream, stream_prepared, transfer,
  as_chunks, consume_turn, StreamReply, chunks, started, relay, open_turn,
}

-- A well-formed store with so many conversations in use.
pub record Holding (n : ℕ) (s : Store) : Type 0 where
  pub inv : Inv s
  pub count : in_use s.lru ≡ n

-- A store and a release closure after whose call, at whatever time, so many are in use.
abbrev pub Owes : ℕ → Store → Option Release → Type 0
Owes n s r = (later : ℕ) → Holding n (run_release later r s)

abbrev pub Prepared : ℕ → Store × Result ErrorReply TurnPrep → Type 0
Prepared n (s, err e) = Holding n s
Prepared n (s, ok p) = Owes n s p.release

abbrev Reserved : ℕ → Store × Result ErrorReply (String × Option Release) → Type 0
Reserved n (s, err e) = Holding n s
Reserved n (s, ok (id, r)) = Owes n s r

reserved-Reserved : (n : ℕ) (r : Store × Outcome) → Inv r.0 → Counts n r → Reserved n (reserved r)
reserved-Reserved n (s, granted id h) v (count, (e, held, busy)) = λ later. record {
  inv = release-Inv (record { handle = h; fired = false }) later s v;
  count = let x = release-in_use h later s e held busy in omega (arith, x, count);
}
reserved-Reserved n (s, refused) v count = record { inv = v; count = count }
reserved-Reserved n (s, dangling) v never = elim never [ ]

reserve_session-Reserved :
    (c : Calls) (now : ℕ) (key : Option Key) (s : Store)
    → Inv s
    → Reserved (in_use s.lru) (reserve_session c now key s)
reserve_session-Reserved c now none s v = λ later. record { inv = v; count = refl }
reserve_session-Reserved c now (some key) s v =
    reserved-Reserved (in_use s.lru) (acquire key now c.entry_uuid s)
      (acquire-Inv key now c.entry_uuid s v).0 (acquire-Counts key now c.entry_uuid s v)

built-Prepared :
    (n : ℕ) (snap : TurnSnapshot) (now : ℕ) (key : String) (r : Option Release) (s : Store)
    (g : Result EnvelopeError GenerateRequest)
    → Owes n s r
    → Prepared n (built snap now key r s g)
built-Prepared n snap now key r s (err e) owes = owes now
built-Prepared n snap now key r s (ok g) owes = owes

build_turn-Prepared :
    (n : ℕ) (c : Calls) (snap : TurnSnapshot) (now : ℕ) (req : ExecutorRequest) (key : String)
    (r : Store × Result ErrorReply (String × Option Release))
    → Reserved n r
    → Prepared n (build_turn c snap now req key r)
build_turn-Prepared n c snap now req key (s, err e) h = h
build_turn-Prepared n c snap now req key (s, ok (id, r)) h = built-Prepared n snap now key r s _ h

after_checks-Prepared :
    (c : Calls) (snap : TurnSnapshot) (now : ℕ) (req : ExecutorRequest) (s : Store)
    (r : Result ErrorReply String)
    → Inv s
    → Prepared (in_use s.lru) (after_checks c snap now req s r)
after_checks-Prepared c snap now req s (err e) v = record { inv = v; count = refl }
after_checks-Prepared c snap now req s (ok key) v =
    build_turn-Prepared (in_use s.lru) c snap now req key _
      (reserve_session-Reserved c now (explicit_session_key c.json req) s v)

-- A turn that cannot be prepared holds no conversation, and one that is prepared holds what its
-- release gives back.
pub prepare_turn-Prepared :
    (c : Calls) (snap : TurnSnapshot) (attrs : String → String) (now : ℕ) (req : ExecutorRequest)
    (s : Store)
    → Inv s
    → Prepared (in_use s.lru) (prepare_turn c snap attrs now req s)
unfolding prepare_turn
prepare_turn-Prepared c snap attrs now req s v =
    after_checks-Prepared c snap now req s (check_turn c snap attrs req) v

executed :
    (n : ℕ) (c : Calls) (later : ℕ) (model : String) (r : Store × Result ErrorReply TurnPrep)
    → Prepared n r
    → Holding n ((execute_prepared c later model r).0)
executed n c later model (s, err e) h = h
executed n c later model (s, ok p) h = h later

execute_non_stream-Holding :
    (c : Calls) (snap : TurnSnapshot) (attrs : String → String) (now later : ℕ)
    (request : Option ExecutorRequest) (s : Store)
    → Inv s
    → Holding (in_use s.lru) ((execute_non_stream c snap attrs now later request s).0)
unfolding execute_non_stream
execute_non_stream-Holding c snap attrs now later none s v = record { inv = v; count = refl }
execute_non_stream-Holding c snap attrs now later (some req) s v =
    executed (in_use s.lru) c later req.model _ (prepare_turn-Prepared c snap attrs now req s v)

-- What becomes of the store when the goroutine, if one was started, has run.
abbrev pub settled :
    Calls → (List Frame → Frame → Bool) → ℕ → Store × Result Failure StreamReply → Store
settled c accepts later (s, err e) = s
settled c accepts later (s, ok (chunks fs)) = s
settled c accepts later (s, ok (started r)) = (relay c accepts later r s).store

as_chunks-settled :
    (c : Calls) (accepts : List Frame → Frame → Bool) (later : ℕ) (model : String) (s : Store)
    (r : Result Failure Accumulated)
    → settled c accepts later (s, as_chunks c model r) ≡ s
as_chunks-settled c accepts later model s (err e) = refl
as_chunks-settled c accepts later model s (ok acc) = refl

transfer-Holding :
    (n : ℕ) (c : Calls) (accepts : List Frame → Frame → Bool) (later : ℕ) (model : String)
    (p : TurnPrep) (s : Store) (r : Result Failure HttpResponse)
    → Owes n s p.release
    → Holding n (settled c accepts later (transfer later model p s r))
unfolding relay
transfer-Holding n c accepts later model p s (err e) owes = owes later
transfer-Holding n c accepts later model p s (ok r) owes = owes later

streamed :
    (n : ℕ) (c : Calls) (accepts : List Frame → Frame → Bool) (later : ℕ) (model id : String)
    (admitted : Bool) (r : Store × Result ErrorReply TurnPrep)
    → Prepared n r
    → Holding n (settled c accepts later (stream_prepared c later model id admitted r))
streamed n c accepts later model id admitted (s, err e) h = h
streamed n c accepts later model id admitted (s, ok p) h = elim (Bool-cases (id == "")) [
  | inl y ↦
      simp
        (
          y,
          as_chunks-settled c accepts later model (run_release later p.release s)
              (consume_turn c p),
        )
        (h later)
  | inr m ↦ elim (Bool-cases admitted) [
    | inl y ↦ simp (m, y) (transfer-Holding n c accepts later model p s (open_turn c p) h)
    | inr m' ↦ simp (m, m') (h later)
  ]
]

execute_stream-Holding :
    (c : Calls) (snap : TurnSnapshot) (attrs : String → String) (now later : ℕ)
    (request : Option (ExecutorRequest × String)) (admitted : Bool)
    (accepts : List Frame → Frame → Bool) (s : Store)
    → Inv s
    → Holding
        (in_use s.lru)
        (settled c accepts later (execute_stream c snap attrs now later request admitted s))
unfolding execute_stream
execute_stream-Holding c snap attrs now later none admitted accepts s v = record {
  inv = v;
  count = refl;
}
execute_stream-Holding c snap attrs now later (some (req, id)) admitted accepts s v =
    streamed (in_use s.lru) c accepts later req.model id admitted _
      (prepare_turn-Prepared c snap attrs now req s v)

-- Whatever the request, the gateway and the host do, on every path of `executeNonStream` and of
-- `executeStream` with the goroutine that it starts, the store is well formed at the end and as many
-- conversations are in use as before: the one that a turn takes is given back once.
pub turn-Holding :
    (c : Calls) (snap : TurnSnapshot) (attrs : String → String) (now later : ℕ)
    (request : Option ExecutorRequest) (streamed_request : Option (ExecutorRequest × String))
    (admitted : Bool) (accepts : List Frame → Frame → Bool) (s : Store)
    → Inv s
    → Holding (in_use s.lru) ((execute_non_stream c snap attrs now later request s).0)
      × Holding (in_use s.lru) (
          settled c accepts later
            (execute_stream c snap attrs now later streamed_request admitted s))
turn-Holding c snap attrs now later request streamed_request admitted accepts s v = (
  execute_non_stream-Holding c snap attrs now later request s v,
  execute_stream-Holding c snap attrs now later streamed_request admitted accepts s v,
)
