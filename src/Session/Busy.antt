-- ===== src/Session/Busy.antt =====
-- How many conversations are in use, and what the calls do to that number.
use cmdcode_go.Base.{
  ℕ, suc, ◌+◌, ◌≡◌, refl, subst, true, false, some, List, [], ◌∷◌, arith, if◌then◌else◌, GoMap,
  String,
}
use cmdcode_go.Session.{
  Key, Entry, Store, Outcome, granted, refused, dangling, deref, remove, sweep, swept, reserve,
  new_entry, push_front, create, evict, acquire, release_now, release,
}
use cmdcode_go.Session.Order.{deref-handle}
use cmdcode_go.Session.Invariant.{Inv, swept-Inv, victim-deref}
use cmdcode_go.Session.Cases.{acquire_cases}

abbrev pub use_of : Entry → ℕ
use_of e = if e.busy then 1 else 0

abbrev pub in_use : List Entry → ℕ
in_use [] = 0
in_use (e ∷ es) = use_of e + in_use es

in_use-sweep :
    (now ttl : ℕ) (m : GoMap Key ℕ) (es : List Entry) → in_use (sweep now ttl m es).1 ≡ in_use es
unfolding sweep
in_use-sweep now ttl m [] = refl
in_use-sweep now ttl m (e ∷ es) = ground (arith, in_use-sweep now ttl m es)

in_use-remove :
    (h : ℕ) (es : List Entry) (e : Entry)
    → deref h es ≡ some e
    → in_use es ≡ use_of e + in_use (remove h es)
unfolding remove deref
in_use-remove h [] e p = cc
in_use-remove h (x ∷ es) e p = ground (arith, in_use-remove h es e)

-- What `acquire` may make of a store with so many conversations in use.
abbrev pub Counts : ℕ → Store × Outcome → Type 0
Counts n (t, granted id h) =
    (in_use t.lru ≡ suc n) × ((e : Entry) × (deref h t.lru ≡ some e) × (e.busy ≡ true))
Counts n (t, refused) = in_use t.lru ≡ n
Counts n (t, dangling) = ⊥

reserve-Counts :
    (now : ℕ) (e : Entry) (s : Store)
    → deref e.handle s.lru ≡ some e
    → e.busy ≡ false
    → Counts (in_use s.lru) (reserve now e s)
unfolding reserve deref
reserve-Counts now e s held idle = (
  ground (arith, in_use-remove e.handle s.lru e held),
  (record e { busy = true; touched = now }, ground arith, refl),
)

create-Counts :
    (key : Key) (now : ℕ) (uuid : String) (s : Store)
    → Counts (in_use s.lru) (create key now uuid s)
unfolding create deref
create-Counts key now uuid s =
    let fresh : in_use (push_front key uuid s).lru ≡ in_use s.lru = omega arith in
    subst (λ n. Counts n (create key now uuid s)) fresh
      (reserve-Counts now (new_entry key uuid s) (push_front key uuid s) (ground arith) refl)

in_use-evict :
    (w : Entry) (s : Store)
    → deref w.handle s.lru ≡ some w
    → w.busy ≡ false
    → in_use (evict w s).lru ≡ in_use s.lru
unfolding evict
in_use-evict w s held idle = ground (arith, in_use-remove w.handle s.lru w held)

-- A grant takes one more conversation into use and its entry is there, a refusal takes none.
pub acquire-Counts :
    (key : Key) (now : ℕ) (uuid : String) (s : Store)
    → Inv s
    → Counts (in_use s.lru) (acquire key now uuid s)
unfolding swept
acquire-Counts key now uuid s v =
    let same = in_use-sweep now s.ttl s.entries s.lru in
    let w = swept-Inv now s v in
    subst (λ n. Counts n (acquire key now uuid s)) same
      (acquire_cases (Counts (in_use (swept now s).lru)) key now uuid s v (λ h. refl)
        (λ e held same_key idle. reserve-Counts now e (swept now s) held idle)
        (λ new room. create-Counts key now uuid (swept now s))
        (λ x new p.
          let (held, idle) = victim-deref _ x w.distinct p in
          subst (λ n. Counts n (create key now uuid (evict x (swept now s))))
            (in_use-evict x (swept now s) held idle)
            (create-Counts key now uuid (evict x (swept now s)))))

release_now-in_use :
    (h now : ℕ) (s : Store) (e : Entry)
    → deref h s.lru ≡ some e
    → e.busy ≡ true
    → suc (in_use (release_now h now s).lru) ≡ in_use s.lru
unfolding release_now
release_now-in_use h now s e held busy =
    simp held (ground (arith, in_use-remove h s.lru e held, deref-handle h s.lru e held))

-- The closure of a grant, called for the first time, gives back one conversation.
pub release-in_use :
    (h now : ℕ) (s : Store) (e : Entry)
    → deref h s.lru ≡ some e
    → e.busy ≡ true
    → suc (in_use (release (record { handle = h; fired = false }) now s).1.lru) ≡ in_use s.lru
unfolding release
release-in_use h now s e held busy = release_now-in_use h now s e held busy
