-- ===== src/Executor/Busy.antt =====
-- A second turn on a conversation that is under way.
use cmdcode_go.Base.{ℕ, ◌≡◌, refl, sym, subst, String, Option, some, [], Result, ok, err}
use cmdcode_go.Identity.{ExecutorRequest, explicit_session_key}
use cmdcode_go.Session.{Key, Store, Outcome, granted, refused, dangling, Release, acquire, swept}
use cmdcode_go.Session.Invariant.{Inv}
use cmdcode_go.Session.Cases.{acquire-Inv}
use cmdcode_go.Session.Turns.{Turn, Holds, Serves, acquire-Serves}
use cmdcode_go.Session.Choice.{acquire_busy}
use cmdcode_go.Request.Envelope.{GenerateRequest, EnvelopeError}
use cmdcode_go.Executor.{
  Calls, TurnSnapshot, ErrorReply, TurnPrep, session_busy, check_turn, prepare_turn, reserved,
  reserve_session, built, build_turn, after_checks,
}

-- A well-formed store in which some turn holds the conversation.
record HoldsKey (key : Key) (s : Store) : Type 0 where
  inv : Inv s
  turn : Turn
  same : turn.key ≡ key
  held : Holds turn s

abbrev ReservedFor : Key → Store × Result ErrorReply (String × Option Release) → Type 0
ReservedFor key (s, err e) = Unit
ReservedFor key (s, ok x) = HoldsKey key s

abbrev PreparedFor : Key → Store × Result ErrorReply TurnPrep → Type 0
PreparedFor key (s, err e) = Unit
PreparedFor key (s, ok p) = HoldsKey key s

reserved-ReservedFor :
    (key : Key) (r : Store × Outcome) → Inv r.0 → Serves [] key r → ReservedFor key (reserved r)
reserved-ReservedFor key (s, granted id h) v (others, apart, held) = record {
  inv = v;
  turn = record { key = key; id = id; handle = h };
  same = refl;
  held = held;
}
reserved-ReservedFor key (s, refused) v x = tt
reserved-ReservedFor key (s, dangling) v x = tt

built-PreparedFor :
    (key : Key) (snap : TurnSnapshot) (now : ℕ) (k : String) (r : Option Release) (s : Store)
    (g : Result EnvelopeError GenerateRequest)
    → HoldsKey key s
    → PreparedFor key (built snap now k r s g)
built-PreparedFor key snap now k r s (err e) h = tt
built-PreparedFor key snap now k r s (ok g) h = h

build_turn-PreparedFor :
    (key : Key) (c : Calls) (snap : TurnSnapshot) (now : ℕ) (req : ExecutorRequest) (k : String)
    (r : Store × Result ErrorReply (String × Option Release))
    → ReservedFor key r
    → PreparedFor key (build_turn c snap now req k r)
build_turn-PreparedFor key c snap now req k (s, err e) h = tt
build_turn-PreparedFor key c snap now req k (s, ok (id, r)) h =
    built-PreparedFor key snap now k r s _ h

after_checks-PreparedFor :
    (key : Key) (c : Calls) (snap : TurnSnapshot) (now : ℕ) (req : ExecutorRequest) (s : Store)
    (r : Result ErrorReply String)
    → Inv s
    → explicit_session_key c.json req ≡ some key
    → PreparedFor key (after_checks c snap now req s r)
after_checks-PreparedFor key c snap now req s (err e) v named = tt
after_checks-PreparedFor key c snap now req s (ok k) v named =
    build_turn-PreparedFor key c snap now req k _ (
      subst (λ o. ReservedFor key (reserve_session c now o s)) (sym named)
        (reserved-ReservedFor key (acquire key now c.entry_uuid s)
          (acquire-Inv key now c.entry_uuid s v).0 (acquire-Serves [] key now c.entry_uuid s v tt)))

holds_after :
    (key : Key) (r : Store × Result ErrorReply TurnPrep) (p : TurnPrep)
    → PreparedFor key r
    → r.1 ≡ ok p
    → HoldsKey key r.0
holds_after key (s, err e) p h q = cc
holds_after key (s, ok x) p h q = h

busy_again :
    (c : Calls) (snap : TurnSnapshot) (now : ℕ) (req : ExecutorRequest) (k : String) (key : Key)
    (s : Store)
    → HoldsKey key s
    → explicit_session_key c.json req ≡ some key
    → (after_checks c snap now req s (ok k)).1 ≡ err session_busy
busy_again c snap now req k key s h named =
    let refuses : acquire key now c.entry_uuid s ≡ (swept now s, refused) =
      subst (λ x. acquire x now c.entry_uuid s ≡ (swept now s, refused)) (h.same)
        (acquire_busy h.turn now c.entry_uuid s h.inv h.held) in
    simp (named, refuses) refl

-- While a turn that was prepared for a conversation holds it, every other request that names the same
-- conversation, at any time and with any configuration, and passes the checks of its model and key, is
-- answered with `session_busy` and status 409.
pub prepare_turn-busy :
    (c d : Calls) (snap later_snap : TurnSnapshot) (attrs later_attrs : String → String)
    (now later : ℕ) (req other : ExecutorRequest) (s : Store) (key : Key) (p : TurnPrep)
    (k : String)
    → Inv s
    → explicit_session_key c.json req ≡ some key
    → (prepare_turn c snap attrs now req s).1 ≡ ok p
    → explicit_session_key d.json other ≡ some key
    → check_turn d later_snap later_attrs other ≡ ok k
    → (prepare_turn d later_snap later_attrs later other (prepare_turn c snap attrs now req s).0).1
      ≡ err session_busy
unfolding prepare_turn
prepare_turn-busy c d snap later_snap attrs later_attrs now later req other s key p k v named
      prepared again checked =
    let h =
      holds_after key _ p
        (after_checks-PreparedFor key c snap now req s (check_turn c snap attrs req) v named)
        prepared in
    simp checked (busy_again d later_snap later other k key _ h again)
