-- ===== src/Session/Turns.antt =====
-- The turns that hold a conversation, and what the calls of others do to them.
use cmdcode_go.Base.{
  ℕ, ◌<◌, ◌≡◌, ◌≢◌, refl, true, false, some, List, [], ◌∷◌, arith, All, All-imp, String,
}
use cmdcode_go.Session.{
  Key, Entry, Store, Outcome, granted, refused, dangling, deref, swept, reserve, new_entry,
  push_front, create, evict, acquire,
}
use cmdcode_go.Session.Order.{deref-handle, All-deref, deref-remove_ne}
use cmdcode_go.Session.Sweep.{deref-sweep}
use cmdcode_go.Session.Invariant.{Inv, swept-Inv, victim-deref, evict-Inv}
use cmdcode_go.Session.Cases.{acquire_cases}

pub record Turn : Type 0 where
  pub key : Key
  pub id : String
  pub handle : ℕ

-- The store keeps the turn's entry, in use, with the upstream identity that the turn was given.
abbrev pub Holds : Turn → Store → Type 0
Holds x s =
    (e : Entry) × (deref x.handle s.lru ≡ some e)
    × (e.busy ≡ true)
    × (e.key ≡ x.key)
    × (e.id ≡ x.id)

module _ (x : Turn) (now : ℕ) where
  Holds-swept : (s : Store) → Inv s → Holds x s → Holds x (swept now s)
  unfolding swept
  Holds-swept s v (e, at, b, k, i) =
      (e, deref-sweep now s.ttl x.handle s.entries s.lru e v.distinct at (ground arith), b, k, i)

  -- An idle entry is not that of a turn.
  not_held :
      (s : Store) (w : Entry)
      → Holds x s
      → deref w.handle s.lru ≡ some w
      → w.busy ≡ false
      → x.handle ≢ w.handle
  not_held s w (e, at, b, k, i) held idle p = ground arith

  Holds-reserve :
      (e : Entry) (s : Store) → x.handle ≢ e.handle → Holds x s → Holds x (reserve now e s).0
  unfolding reserve deref
  Holds-reserve e s n (a, at, b, k, i) =
      (a, ground (arith, deref-remove_ne e.handle x.handle s.lru n), b, k, i)

  Holds-evict : (w : Entry) (s : Store) → x.handle ≢ w.handle → Holds x s → Holds x (evict w s)
  unfolding evict
  Holds-evict w s n (a, at, b, k, i) =
      (a, ground (arith, deref-remove_ne w.handle x.handle s.lru n), b, k, i)

  old_handle : (s : Store) → Inv s → Holds x s → x.handle ≢ s.next_handle
  old_handle s v (e, at, b, k, i) p = omega (
    arith,
    All-deref (λ y. y.handle < s.next_handle) x.handle s.lru e v.below at,
    deref-handle x.handle s.lru e at,
  )

  Holds-push :
      (key : Key) (uuid : String) (s : Store) → Inv s → Holds x s → Holds x (push_front key uuid s)
  unfolding deref
  Holds-push key uuid s v (a, at, b, k, i) =
      let n = old_handle s v (a, at, b, k, i) in (a, ground arith, b, k, i)

Holds-evict_each :
    (now : ℕ) (w : Entry) (s : Store) (xs : List Turn)
    → All (λ x. x.handle ≢ w.handle) xs
    → All (λ x. Holds x s) xs
    → All (λ x. Holds x (evict w s)) xs
Holds-evict_each now w s [] n h = tt
Holds-evict_each now w s (x ∷ xs) n h =
    (Holds-evict x now w s n.0 h.0, Holds-evict_each now w s xs n.1 h.1)

-- What `acquire` does for the turn that asks, and to the turns under way.
abbrev pub Serves : List Turn → Key → Store × Outcome → Type 0
Serves xs key (t, granted id h) =
    All (λ x. Holds x t) xs
    × All (λ x. x.handle ≢ h) xs
    × Holds (record { key = key; id = id; handle = h }) t
Serves xs key (t, refused) = All (λ x. Holds x t) xs
Serves xs key (t, dangling) = ⊥

reserve-Serves :
    (xs : List Turn) (key : Key) (now : ℕ) (e : Entry) (s : Store)
    → All (λ x. Holds x s) xs
    → All (λ x. x.handle ≢ e.handle) xs
    → e.key ≡ key
    → Serves xs key (reserve now e s)
unfolding reserve deref
reserve-Serves [] key now e s h n same =
    (tt, tt, (record e { busy = true; touched = now }, ground arith, refl, same, refl))
reserve-Serves (x ∷ xs) key now e s h n same =
    let (kept, others, self) = reserve-Serves xs key now e s h.1 n.1 same in
    ((Holds-reserve x now e s n.0 h.0, kept), n, self)

-- No turn under way has an idle entry.
none_idle :
    (now : ℕ) (s : Store) (w : Entry) (xs : List Turn)
    → deref w.handle s.lru ≡ some w
    → w.busy ≡ false
    → All (λ x. Holds x s) xs
    → All (λ x. x.handle ≢ w.handle) xs
none_idle now s w xs held idle =
    All-imp (λ x. Holds x s) (λ x. x.handle ≢ w.handle) (λ x h. not_held x now s w h held idle) xs

create-Serves :
    (xs : List Turn) (key : Key) (now : ℕ) (uuid : String) (s : Store)
    → Inv s
    → All (λ x. Holds x s) xs
    → Serves xs key (create key now uuid s)
unfolding create
create-Serves xs key now uuid s v h =
    reserve-Serves xs key now (new_entry key uuid s) (push_front key uuid s)
      (All-imp (λ x. Holds x s) (λ x. Holds x (push_front key uuid s))
        (λ x. Holds-push x now key uuid s v) xs h)
      (All-imp (λ x. Holds x s) (λ x. x.handle ≢ s.next_handle) (λ x. old_handle x now s v) xs h)
      refl

-- A turn is granted the conversation of its key, and keeps every turn under way as it was: it
-- expires none, evicts none and shares the entry of none.
pub acquire-Serves :
    (xs : List Turn) (key : Key) (now : ℕ) (uuid : String) (s : Store)
    → Inv s
    → All (λ x. Holds x s) xs
    → Serves xs key (acquire key now uuid s)
acquire-Serves xs key now uuid s v h =
    let w = swept-Inv now s v in
    let k : All (λ x. Holds x (swept now s)) xs =
      All-imp (λ x. Holds x s) (λ x. Holds x (swept now s)) (λ x. Holds-swept x now s v) xs h in
    acquire_cases (Serves xs key) key now uuid s v (λ _. k)
      (λ e held same idle.
        reserve-Serves xs key now e (swept now s) k (none_idle now (swept now s) e xs held idle k)
          same)
      (λ new room. create-Serves xs key now uuid (swept now s) w k)
      (λ e new p.
        let (held, idle) = victim-deref (swept now s).lru e w.distinct p in
        let others = none_idle now (swept now s) e xs held idle k in
        create-Serves xs key now uuid (evict e (swept now s)) (evict-Inv e (swept now s) w held).0
          (Holds-evict_each now e (swept now s) xs others k))
