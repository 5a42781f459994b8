-- ===== src/Session/Traces.antt =====
-- Any interleaving of turns that begin and end, each holding the store's lock while it does.
use cmdcode_go.Base.{
  ℕ, zero, suc, ◌≤◌, ◌≡◌, ◌≢◌, refl, false, Option, none, some, List, [], ◌∷◌, arith, length, All,
  remove_at, All-remove_at, All-get_elem?, get_elem?, String, sym, ◌∙◌, subst, Option-cases, inl,
  inr,
}
use cmdcode_go.Session.{
  Key, Store, Outcome, granted, refused, dangling, deref, new_store, acquire, release,
}
use cmdcode_go.Session.Order.{deref-handle, find-deref, deref-remove_ne}
use cmdcode_go.Session.Invariant.{Inv, new_store-Inv}
use cmdcode_go.Session.Cases.{acquire-Inv, release-Inv, acquire-capacity, release-capacity}
use cmdcode_go.Session.Turns.{Turn, Holds, Serves, acquire-Serves}

-- The store, and the turns that have been granted a conversation and not released it.
pub record System : Type 0 where
  pub store : Store
  pub turns : List Turn

pub data Event : Type 0 where
  begins : Key → ℕ → String → Event
  -- the turn at a place of the list calls its release closure
  ends : ℕ → ℕ → Event

abbrev pub started : Key → List Turn → Store × Outcome → System
started key xs (s, granted id h) = record {
  store = s;
  turns = record { key = key; id = id; handle = h } ∷ xs;
}
started key xs (s, refused) = record { store = s; turns = xs }
started key xs (s, dangling) = record { store = s; turns = xs }

abbrev pub ended : ℕ → ℕ → System → Option Turn → System
ended i now y none = y
ended i now y (some x) = record {
  store = (release (record { handle = x.handle; fired = false }) now y.store).1;
  turns = remove_at i y.turns;
}

pub step : System → Event → System
step y (begins key now uuid) = started key y.turns (acquire key now uuid y.store)
step y (ends i now) = ended i now y (get_elem? y.turns i)

pub run : System → List Event → System
run y [] = y
run y (e ∷ es) = run (step y e) es

abbrev Apart : List Turn → Type 0
Apart [] = Unit
Apart (x ∷ xs) = All (λ y. y.handle ≢ x.handle) xs × Apart xs

-- No two turns are in one conversation.
abbrev pub Exclusive : List Turn → Type 0
Exclusive [] = Unit
Exclusive (x ∷ xs) = All (λ y. y.key ≢ x.key) xs × Exclusive xs

record Good (capacity : ℕ) (y : System) : Type 0 where
  inv : Inv y.store
  held : All (λ x. Holds x y.store) y.turns
  apart : Apart y.turns
  limit : y.store.capacity ≡ capacity

remove_at-Apart : (i : ℕ) (xs : List Turn) → Apart xs → Apart (remove_at i xs)
remove_at-Apart i [] a = tt
remove_at-Apart zero (x ∷ xs) a = a.1
remove_at-Apart (suc i) (x ∷ xs) a =
    (All-remove_at (λ y. y.handle ≢ x.handle) i xs a.0, remove_at-Apart i xs a.1)

-- The other turns have other entries.
others_elsewhere :
    (i : ℕ) (xs : List Turn) (x : Turn)
    → Apart xs
    → get_elem? xs i ≡ some x
    → All (λ y. y.handle ≢ x.handle) (remove_at i xs)
others_elsewhere i [] x a e = tt
others_elsewhere zero (y ∷ xs) x a e =
    let p : y ≡ x = cc in subst (λ z. All (λ y. y.handle ≢ z.handle) xs) p a.0
others_elsewhere (suc i) (y ∷ xs) x a e = (
  λ p. All-get_elem? (λ z. z.handle ≢ y.handle) i xs x a.0 e (sym p),
  others_elsewhere i xs x a.1 e,
)

Holds-release :
    (x : Turn) (h now : ℕ) (s : Store)
    → x.handle ≢ h
    → Holds x s
    → Holds x (release (record { handle = h; fired = false }) now s).1
unfolding release deref
Holds-release x h now s n (a, found, b, k, i) = (a, kept, b, k, i)
  where
    kept : deref x.handle (release (record { handle = h; fired = false }) now s).1.lru ≡ some a
    kept = elim (Option-cases (deref h s.lru)) [
      | inl gone ↦ rw gone found
      | inr (e, p) ↦
          rw p (ground (arith, deref-handle h s.lru e p, deref-remove_ne e.handle x.handle s.lru))
    ]

release_each :
    (h now : ℕ) (s : Store) (xs : List Turn)
    → All (λ x. x.handle ≢ h) xs
    → All (λ x. Holds x s) xs
    → All (λ x. Holds x (release (record { handle = h; fired = false }) now s).1) xs
release_each h now s [] n k = tt
release_each h now s (x ∷ xs) n k =
    (Holds-release x h now s n.0 k.0, release_each h now s xs n.1 k.1)

-- Two turns with one key would have one entry.
keys_apart :
    (s : Store) (x : Turn) (ys : List Turn)
    → Inv s
    → Holds x s
    → All (λ y. Holds y s) ys
    → All (λ y. y.handle ≢ x.handle) ys
    → All (λ y. y.key ≢ x.key) ys
keys_apart s x [] v hx hy n = tt
keys_apart s x (y ∷ ys) v hx hy n = (
  λ p. n.0 (
      ground (
        arith,
        find-deref x.handle s.lru hx.0 v.distinct hx.1,
        find-deref y.handle s.lru hy.0.0 v.distinct hy.0.1,
        hx.3,
        hy.0.3,
      )),
  keys_apart s x ys v hx hy.1 n.1,
)

Good-begins :
    (c : ℕ) (key : Key) (now : ℕ) (uuid : String) (y : System)
    → Good c y
    → Good c (step y (begins key now uuid))
unfolding step
Good-begins c key now uuid y g =
    go (acquire key now uuid y.store) (acquire-Inv key now uuid y.store g.inv).0
      (acquire-Serves y.turns key now uuid y.store g.inv g.held)
      (acquire-capacity key now uuid y.store g.inv ∙ g.limit)
  where
    go :
        (r : Store × Outcome)
        → Inv r.0
        → Serves y.turns key r
        → r.0.capacity ≡ c
        → Good c (started key y.turns r)
    go (s, granted id h) v (kept, others, self) l = record {
      inv = v;
      held = (self, kept);
      apart = (others, g.apart);
      limit = l;
    }
    go (s, refused) v kept l = record { inv = v; held = kept; apart = g.apart; limit = l }
    go (s, dangling) v h l = absurd h

Good-ends : (c i now : ℕ) (y : System) → Good c y → Good c (step y (ends i now))
unfolding step
Good-ends c i now y g = elim (Option-cases (get_elem? y.turns i)) [
  | inl past ↦ rw past g
  | inr (x, p) ↦ rw p (record {
    inv = release-Inv (record { handle = x.handle; fired = false }) now y.store g.inv;
    held =
        release_each x.handle now y.store (remove_at i y.turns)
          (others_elsewhere i y.turns x g.apart p)
          (All-remove_at (λ z. Holds z y.store) i y.turns g.held);
    apart = remove_at-Apart i y.turns g.apart;
    limit = release-capacity (record { handle = x.handle; fired = false }) now y.store ∙ g.limit;
  })
]

Good-run : (c : ℕ) (y : System) (es : List Event) → Good c y → Good c (run y es)
unfolding run
Good-run c y [] g = g
Good-run c y (begins key now uuid ∷ es) g =
    Good-run c (step y (begins key now uuid)) es (Good-begins c key now uuid y g)
Good-run c y (ends i now ∷ es) g = Good-run c (step y (ends i now)) es (Good-ends c i now y g)

-- Entries apart are conversations apart, since the map has one entry for a key.
Apart-Exclusive :
    (s : Store) (xs : List Turn) → Inv s → All (λ x. Holds x s) xs → Apart xs → Exclusive xs
Apart-Exclusive s [] v h a = tt
Apart-Exclusive s (x ∷ xs) v h a = (keys_apart s x xs v h.0 h.1 a.0, Apart-Exclusive s xs v h.1 a.1)

abbrev pub start : ℕ → ℕ → System
start ttl capacity = record { store = new_store ttl capacity; turns = [] }

start_capacity : (ttl capacity : ℕ) → (start ttl capacity).store.capacity ≡ capacity
unfolding new_store
start_capacity ttl capacity = refl

-- From an empty store, however turns begin and end and whatever the clock shows: no two turns under
-- way share a conversation, each still has its entry in use with the identity that it was given,
-- the map and the list agree, and they hold at most `capacity` conversations.
pub run-Exclusive :
    (ttl capacity : ℕ) (es : List Event)
    → Exclusive (run (start ttl capacity) es).turns
      × All (λ x. Holds x (run (start ttl capacity) es).store) (run (start ttl capacity) es).turns
      × Inv (run (start ttl capacity) es).store
      × (length (run (start ttl capacity) es).store.lru ≤ capacity)
run-Exclusive ttl capacity es =
    let g = Good-run capacity (start ttl capacity) es (record {
      inv = new_store-Inv ttl capacity;
      held = tt;
      apart = tt;
      limit = start_capacity ttl capacity;
    }) in
    (Apart-Exclusive _ _ g.inv g.held g.apart, g.held, g.inv, omega (arith, g.inv.bounded, g.limit))
