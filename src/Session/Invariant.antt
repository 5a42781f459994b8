-- ===== src/Session/Invariant.antt =====
-- The map and the list of a session store describe the same conversations, at most `capacity` of
-- them, before and after every call.
use cmdcode_go.Base.{
  ite, ℕ, suc, ◌+◌, ◌≤◌, ◌<◌, ◌≡◌, ◌≢◌, refl, true, false, none, some, List, [], ◌∷◌, arith, length,
  All, GoMap, is_some, String, Option-cases, inl, inr,
}
use cmdcode_go.Session.{
  Key, Key-discrete, Entry, Store, deref, remove, victim, new_store, swept, reserve, new_entry,
  push_front, create, evict,
}
use cmdcode_go.Session.Order.{
  Distinct, find, absent_of_find, find-deref, find-remove, length-remove, remove-Distinct,
  remove_drops, All-remove, All-deref, deref-cons_self,
}
use cmdcode_go.Session.Sweep.{All-sweep, sweep-Distinct, sweep-agree, sweep-size, length-sweep-le}

pub record Inv (s : Store) : Type 0 where
  pub distinct : Distinct s.lru
  pub agree : (k : Key) → s.entries.get k ≡ find k s.lru
  pub sized : s.entries.size ≡ length s.lru
  pub bounded : length s.lru ≤ s.capacity
  pub below : All (λ e. e.handle < s.next_handle) s.lru

pub new_store-Inv : (ttl capacity : ℕ) → Inv (new_store ttl capacity)
unfolding new_store find
new_store-Inv ttl capacity = record {
  distinct = tt;
  agree = λ k. refl;
  sized = refl;
  bounded = omega arith;
  below = tt;
}

-- Every key of the list is found in it.
every_found :
    (whole es : List Entry)
    → ((k : Key) → is_some (find k es) ≡ true → is_some (find k whole) ≡ true)
    → All (λ e. is_some (find e.key whole) ≡ true) es
unfolding find
every_found whole [] sub = tt
every_found whole (e ∷ es) sub =
    (sub e.key (ground arith), every_found whole es (λ k h. sub k (ground arith)))

every_mapped :
    (m : GoMap Key ℕ) (whole es : List Entry)
    → ((k : Key) → m.get k ≡ find k whole)
    → All (λ e. is_some (find e.key whole) ≡ true) es
    → All (λ e. is_some (m.get e.key) ≡ true) es
every_mapped m whole [] a h = tt
every_mapped m whole (e ∷ es) a h = (rw (a e.key) h.0, every_mapped m whole es a h.1)

pub swept-Inv : (now : ℕ) (s : Store) → Inv s → Inv (swept now s)
unfolding swept
swept-Inv now s v = record {
  distinct = sweep-Distinct now s.ttl s.entries s.lru v.distinct;
  agree = λ k. sweep-agree now s.ttl k s.entries s.lru v.distinct (v.agree k);
  sized = omega (
    arith,
    v.sized,
    sweep-size now s.ttl s.entries s.lru v.distinct
        (every_mapped s.entries s.lru s.lru v.agree (every_found s.lru s.lru (λ k h. h)))
        (omega (arith, v.sized)),
  );
  bounded = omega (arith, v.bounded, length-sweep-le now s.ttl s.entries s.lru);
  below = All-sweep now s.ttl (λ e. e.handle < s.next_handle) s.entries s.lru v.below;
}

pub victim-deref :
    (es : List Entry) (v : Entry)
    → Distinct es
    → victim es ≡ some v
    → (deref v.handle es ≡ some v) × (v.busy ≡ false)
unfolding victim deref
victim-deref [] v d q = cc
victim-deref (e ∷ es) v d q = elim (Option-cases (victim es)) [
  | inl n ↦ ground arith
  | inr (w, p) ↦
      let (found, idle) = victim-deref es w d.2 p in
      ground (arith, All-deref (λ y. y.handle ≢ e.handle) w.handle es w d.1 found)
]

-- Moving an entry of the list to its front, with new times and marks.
module _ (s : Store) (e f : Entry) (v : Inv s) (held : deref e.handle s.lru ≡ some e)
    (same : (f.key ≡ e.key) × (f.handle ≡ e.handle)) where
  pub front-Inv : Inv (record s { lru = f ∷ remove e.handle s.lru })
  unfolding find
  front-Inv = record {
    distinct = (
      absent_of_find f.key (remove e.handle s.lru)
          (ground (arith, find-remove f.key s.lru e v.distinct held)),
      rw (same.1) (remove_drops e.handle s.lru v.distinct),
      remove-Distinct e.handle s.lru v.distinct,
    );
    agree = λ k. ground (
      arith,
      v.agree k,
      find-remove k s.lru e v.distinct held,
      find-deref e.handle s.lru e v.distinct held,
    );
    sized = omega (arith, v.sized, length-remove e.handle s.lru e held);
    bounded = omega (arith, v.bounded, length-remove e.handle s.lru e held);
    below = (
      ground (arith, All-deref (λ y. y.handle < s.next_handle) e.handle s.lru e v.below held),
      All-remove (λ y. y.handle < s.next_handle) e.handle s.lru v.below,
    );
  }

pub reserve-Inv :
    (now : ℕ) (e : Entry) (s : Store)
    → Inv s
    → deref e.handle s.lru ≡ some e
    → Inv (reserve now e s).0
unfolding reserve
reserve-Inv now e s v held =
    front-Inv s e (record e { busy = true; touched = now }) v held (refl, refl)

pub evict-Inv :
    (e : Entry) (s : Store)
    → Inv s
    → deref e.handle s.lru ≡ some e
    → Inv (evict e s)
      × (length (evict e s).lru + 1 ≡ length s.lru)
      × ((k : Key) → find k (evict e s).lru ≡ ite (Key-discrete k e.key) none (find k s.lru))
unfolding evict
evict-Inv e s v held = (
  record {
    distinct = remove-Distinct e.handle s.lru v.distinct;
    agree = λ k. ground (arith, v.agree k, find-remove k s.lru e v.distinct held);
    sized = ground (
      arith,
      v.sized,
      v.agree e.key,
      find-deref e.handle s.lru e v.distinct held,
      length-remove e.handle s.lru e held,
    );
    bounded = omega (arith, v.bounded, length-remove e.handle s.lru e held);
    below = All-remove (λ y. y.handle < s.next_handle) e.handle s.lru v.below;
  },
  length-remove e.handle s.lru e held,
  λ k. find-remove k s.lru e v.distinct held,
)

-- An address that was given out is not the next one.
fresh_handle : (n : ℕ) (es : List Entry) → All (λ e. e.handle < n) es → All (λ e. e.handle ≢ n) es
fresh_handle n [] a = tt
fresh_handle n (e ∷ es) a = (omega arith, fresh_handle n es a.1)

below_suc : (n : ℕ) (es : List Entry) → All (λ e. e.handle < n) es → All (λ e. e.handle < suc n) es
below_suc n [] a = tt
below_suc n (e ∷ es) a = (omega arith, below_suc n es a.1)

pub create-Inv :
    (key : Key) (now : ℕ) (uuid : String) (s : Store)
    → Inv s
    → find key s.lru ≡ none
    → length s.lru < s.capacity
    → Inv (create key now uuid s).0
unfolding create find
create-Inv key now uuid s v new room =
    reserve-Inv now (new_entry key uuid s) (push_front key uuid s)
      (record {
        distinct =
            (absent_of_find key s.lru new, fresh_handle s.next_handle s.lru v.below, v.distinct);
        agree = λ k. ground (arith, v.agree k);
        sized = ground (arith, v.sized, v.agree key);
        bounded = omega arith;
        below = (omega arith, below_suc s.next_handle s.lru v.below);
      })
      (deref-cons_self (new_entry key uuid s) s.lru)
