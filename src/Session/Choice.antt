-- ===== src/Session/Choice.antt =====
-- Which conversation `acquire` answers with, refuses, expires or evicts.
use cmdcode_go.Base.{
  ℕ, ◌+◌, ◌<◌, ◌≡◌, refl, Bool, true, false, ◌||◌, none, some, List, [], ◌∷◌, ◌++◌, arith, All,
  if◌then◌else◌, String, Bool-cases, inl, inr, ◌⊎◌, ltb, GoMap, ap, ◌∙◌, length, filter,
}
use cmdcode_go.Session.{
  Key, Entry, Store, granted, refused, Release, deref, victim, swept, sweep, expired, reserve,
  acquire, release,
}
use cmdcode_go.Session.Order.{find, find-deref}
use cmdcode_go.Session.Sweep.{deref-sweep}
use cmdcode_go.Session.Invariant.{Inv, swept-Inv}
use cmdcode_go.Session.Turns.{Turn, Holds}

-- In use, or touched less than `ttl` ago.
abbrev pub is_fresh : ℕ → ℕ → Entry → Bool
is_fresh now ttl e = e.busy || ltb now (e.touched + ttl)

sweep-filter :
    (now ttl : ℕ) (m : GoMap Key ℕ) (es : List Entry)
    → (sweep now ttl m es).1 ≡ filter (is_fresh now ttl) es
unfolding sweep
sweep-filter now ttl m [] = refl
sweep-filter now ttl m (e ∷ es) = ground (arith, sweep-filter now ttl m es)

-- The expiry loop leaves in the list, in order, the entries that are in use or were touched less than
-- `ttl` ago, and in the map those entries and no other: a key is there exactly if one of them has it,
-- for that entry, and the map's size is their number.
pub swept-filter :
    (now : ℕ) (s : Store)
    → Inv s
    → let kept = filter (is_fresh now s.ttl) s.lru in
      ((swept now s).lru ≡ kept)
      × ((k : Key) → (swept now s).entries.get k ≡ find k kept)
      × ((swept now s).entries.size ≡ length kept)
unfolding swept
swept-filter now s v =
    let w = swept-Inv now s v in
    let same = sweep-filter now s.ttl s.entries s.lru in
    (same, (λ k. w.agree k ∙ ap (find k) same), w.sized ∙ ap length same)

-- The one evicted is idle, and every entry used less recently is in use; there is none to evict
-- exactly when all are in use.
pub victim-oldest :
    (es : List Entry)
    → ((victim es ≡ none) × All (λ e. e.busy ≡ true) es)
      ⊎ ((newer : List Entry) × (w : Entry) × (older : List Entry) × (victim es ≡ some w)
          × (es ≡ newer ++ w ∷ older)
          × (w.busy ≡ false)
          × All (λ e. e.busy ≡ true) older)
unfolding victim
victim-oldest [] = inl (refl, tt)
victim-oldest (e ∷ es) = elim (victim-oldest es) [
  | inr (newer, w, older, p, q, idle, busy) ↦ inr (e ∷ newer, w, older, rw p, rw q, idle, busy)
  | inl (p, busy) ↦ elim (Bool-cases e.busy) [
    | inl b ↦ inl (ground arith, (b, busy))
    | inr b ↦ inr ([], e, es, ground arith, refl, b, busy)
  ]
]

stays :
    (h : ℕ) (e : Entry) (now : ℕ) (s : Store)
    → Inv s
    → deref h s.lru ≡ some e
    → expired now s.ttl e ≡ false
    → deref h (swept now s).lru ≡ some e
unfolding swept
stays h e now s v found fresh = deref-sweep now s.ttl h s.entries s.lru e v.distinct found fresh

-- The entry of the key, if it has not expired, decides the answer.
acquire_known :
    (h : ℕ) (e : Entry) (now : ℕ) (uuid : String) (s : Store)
    → Inv s
    → deref h s.lru ≡ some e
    → expired now s.ttl e ≡ false
    → acquire e.key now uuid s
      ≡ (if e.busy then (swept now s, refused) else reserve now e (swept now s))
unfolding acquire
acquire_known h e now uuid s v found fresh =
    let w = swept-Inv now s v in
    let held = stays h e now s v found fresh in
    rw (w.agree e.key, find-deref h (swept now s).lru e w.distinct held, held)

-- A second turn on a conversation under way is refused, whatever the time.
pub acquire_busy :
    (x : Turn) (now : ℕ) (uuid : String) (s : Store)
    → Inv s
    → Holds x s
    → acquire x.key now uuid s ≡ (swept now s, refused)
acquire_busy x now uuid s v (e, found, b, k, i) =
    ground (arith, acquire_known x.handle e now uuid s v found (ground arith))

-- A conversation that is idle and has not expired is resumed: under its old identity.
pub acquire_resumes :
    (e : Entry) (now : ℕ) (uuid : String) (s : Store)
    → Inv s
    → deref e.handle s.lru ≡ some e
    → e.busy ≡ false
    → now < e.touched + s.ttl
    → (acquire e.key now uuid s).1 ≡ granted e.id e.handle
unfolding reserve
acquire_resumes e now uuid s v found idle fresh =
    ground (arith, acquire_known e.handle e now uuid s v found (ground arith))

-- The release closure acts once.
pub release_twice :
    (r : Release) (now later : ℕ) (s : Store)
    → release (release r now s).0 later (release r now s).1 ≡ release r now s
unfolding release
release_twice r now later s = ground arith
