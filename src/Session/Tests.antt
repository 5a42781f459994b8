-- ===== src/Session/Tests.antt =====
-- go/session.go at concrete stores.
use cmdcode_go.Base.{
  sym, ◌∙◌, if_pos, if_neg, ◌≤◌, ◌≡◌, ◌≢◌, ◌⊎◌, ◌++◌, refl, Bool, true, false, none, some, List, [],
  ◌∷◌, All, arith, empty_map, put, length, filter, ℕ_discrete,
}
use cmdcode_go.Session.{
  Key, Entry, Store, granted, refused, dangling, new_store, acquire, release, swept, sweep, victim,
  deref, reserve, remove, create, Key-discrete,
}
use cmdcode_go.Session.Order.{find}
use cmdcode_go.Session.Invariant.{Inv}
use cmdcode_go.Session.Cases.{acquire-Inv, release-Inv}
use cmdcode_go.Session.Turns.{Turn, Holds, Serves, acquire-Serves}
use cmdcode_go.Session.Traces.{Event, begins, ends, Exclusive, start, run, run-Exclusive}
use cmdcode_go.Session.Choice.{
  is_fresh, swept-filter, victim-oldest, acquire_busy, acquire_resumes, release_twice,
}

abbrev first_key : Key
first_key = record { caller = "c"; auth = "a"; id = "conversation-a" }

abbrev other_key : Key
other_key = record { caller = "c"; auth = "a"; id = "conversation-b" }

abbrev in_use : Entry
in_use = record { handle = 0; key = first_key; id = "uuid-0"; touched = 10; busy = true }

abbrev at_rest : Entry
at_rest = record { handle = 0; key = first_key; id = "uuid-0"; touched = 10; busy = false }

abbrev holding : Entry → Store
holding e = record {
  entries = put Key-discrete first_key 0 empty_map;
  lru = e ∷ [];
  next_handle = 1;
  ttl = 60;
  capacity = 2;
}

program : Unit {0}
unfolding acquire new_store swept sweep create reserve remove deref release victim Key-discrete
    ℕ_discrete
program = tt

-- The first use of a conversation, from an empty store.
first_acquire :
    acquire first_key 10 "uuid-0" (new_store 60 2) ≡ (holding in_use, granted "uuid-0" 0)
unfolding program
first_acquire = refl

-- Busy, so refused; idle, so resumed; idle for a whole `ttl`, so replaced.
later_acquires :
    (acquire first_key 20 "uuid-1" (holding in_use) ≡ (holding in_use, refused))
    × ((acquire first_key 69 "uuid-1" (holding at_rest)).1 ≡ granted "uuid-0" 0)
    × ((acquire first_key 70 "uuid-1" (holding at_rest)).1 ≡ granted "uuid-1" 1)
unfolding program
later_acquires = (refl, refl, refl)

holding-Inv : (b : Bool) → Inv (holding (record at_rest { busy = b }))
unfolding find
holding-Inv b = record {
  distinct = (tt, tt, tt);
  agree = λ k. elim (Key-discrete k first_key) [
    | yes p ↦
        if_pos (Key-discrete k first_key) p (some 0) none
        ∙ sym (if_pos (Key-discrete first_key k) (sym p) (some 0) none)
    | no q ↦
        if_neg (Key-discrete k first_key) q (some 0) none
        ∙ sym (if_neg (Key-discrete first_key k) (λ r. q (sym r)) (some 0) none)
  ];
  sized = refl;
  bounded = omega arith;
  below = (omega arith, tt);
}

abbrev turn : Turn
turn = record { key = first_key; id = "uuid-0"; handle = 0 }

turn-Holds : Holds turn (holding in_use)
unfolding program
turn-Holds = (in_use, refl, refl, refl, refl)

abbrev history : List Event
history =
    begins first_key 10 "uuid-0"
    ∷ begins other_key 11 "uuid-1"
    ∷ begins first_key 12 "uuid-2"
    ∷ ends 1 20
    ∷ begins first_key 100 "uuid-3"
    ∷ []

run-Exclusive_example :
    Exclusive (run (start 60 2) history).turns
    × All (λ x. Holds x (run (start 60 2) history).store) (run (start 60 2) history).turns
    × Inv (run (start 60 2) history).store
    × (length (run (start 60 2) history).store.lru ≤ 2)
run-Exclusive_example = run-Exclusive 60 2 history

acquire-Serves_example :
    Serves (turn ∷ []) other_key (acquire other_key 30 "uuid-1" (holding in_use))
acquire-Serves_example =
    acquire-Serves (turn ∷ []) other_key 30 "uuid-1" (holding in_use) (holding-Inv true)
      (turn-Holds, tt)

acquired-Inv :
    Inv (acquire first_key 70 "uuid-1" (holding at_rest)).0
    × ((acquire first_key 70 "uuid-1" (holding at_rest)).1 ≢ dangling)
acquired-Inv = acquire-Inv first_key 70 "uuid-1" (holding at_rest) (holding-Inv false)

release-Inv_example : Inv (release (record { handle = 0; fired = false }) 30 (holding in_use)).1
release-Inv_example =
    release-Inv (record { handle = 0; fired = false }) 30 (holding in_use) (holding-Inv true)

refused_while_held :
    acquire first_key 500 "uuid-1" (holding in_use) ≡ (swept 500 (holding in_use), refused)
refused_while_held = acquire_busy turn 500 "uuid-1" (holding in_use) (holding-Inv true) turn-Holds

acquire_resumes_example : (acquire first_key 69 "uuid-1" (holding at_rest)).1 ≡ granted "uuid-0" 0
unfolding program
acquire_resumes_example =
    acquire_resumes at_rest 69 "uuid-1" (holding at_rest) (holding-Inv false) refl refl
      (omega arith)

abbrev three : List Entry
three = record in_use { handle = 2 } ∷ record at_rest { handle = 1 } ∷ in_use ∷ []

victim-oldest_example :
    ((victim three ≡ none) × All (λ e. e.busy ≡ true) three)
    ⊎ ((newer : List Entry) × (w : Entry) × (older : List Entry) × (victim three ≡ some w)
        × (three ≡ newer ++ w ∷ older)
        × (w.busy ≡ false)
        × All (λ e. e.busy ≡ true) older)
victim-oldest_example = victim-oldest three

swept-filter_example :
    let kept = filter (is_fresh 70 60) (holding at_rest).lru in
    ((swept 70 (holding at_rest)).lru ≡ kept)
    × ((k : Key) → (swept 70 (holding at_rest)).entries.get k ≡ find k kept)
    × ((swept 70 (holding at_rest)).entries.size ≡ length kept)
swept-filter_example = swept-filter 70 (holding at_rest) (holding-Inv false)

release_twice_example :
    release
      (record { handle = 0; fired = true })
      50
      (release (record { handle = 0; fired = false }) 30 (holding in_use)).1
    ≡ release (record { handle = 0; fired = false }) 30 (holding in_use)
unfolding program
release_twice_example = release_twice (record { handle = 0; fired = false }) 30 50 (holding in_use)
