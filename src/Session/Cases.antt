-- ===== src/Session/Cases.antt =====
-- How `acquire` can end, and what every call keeps.
use cmdcode_go.Base.{
  ℕ, ◌+◌, ◌≤◌, ◌<◌, ◌≡◌, ◌≢◌, refl, true, false, none, some, arith, length, String, sym, subst,
  Option-cases, Bool-cases, inl, inr, ◌⊎◌, leb,
}
use cmdcode_go.Session.{
  Key, Entry, Store, Outcome, refused, dangling, Release, deref, victim, swept, reserve, create,
  evict, resume, insert_new, acquire, release, release_now,
}
use cmdcode_go.Session.Order.{find, deref-find, deref-handle}
use cmdcode_go.Session.Invariant.{
  Inv, swept-Inv, victim-deref, front-Inv, reserve-Inv, evict-Inv, create-Inv,
}

-- The four ways in which `acquire` ends on a well-formed store, `t` being the store after the expiry
-- loop. No address dangles.
module _ {ℓ} (P : Store × Outcome → Type ℓ) (key : Key) (now : ℕ) (uuid : String) (s : Store)
    (v : Inv s) where
  abbrev t : Store
  t = swept now s

  module _
      (refuses : ((e : Entry) × (deref e.handle t.lru ≡ some e) × (e.key ≡ key) × (e.busy ≡ true))
          ⊎ ((victim t.lru ≡ none) × (t.capacity ≤ length t.lru))
        → P (t, refused))
      (resumes : (e : Entry)
        → deref e.handle t.lru ≡ some e
        → e.key ≡ key
        → e.busy ≡ false
        → P (reserve now e t))
      (creates : find key t.lru ≡ none → length t.lru < t.capacity → P (create key now uuid t))
      (evicts : (w : Entry)
        → find key t.lru ≡ none
        → victim t.lru ≡ some w
        → P (create key now uuid (evict w t))) where
    resume_cases :
        (e : Entry) → deref e.handle t.lru ≡ some e → e.key ≡ key → P (resume now t (some e))
    resume_cases e held same = elim (Bool-cases e.busy) [
      | inl busy ↦ rw busy (refuses (inl (e, held, same, busy)))
      | inr idle ↦ simp idle (resumes e held same idle)
    ]

    insert_cases : find key t.lru ≡ none → P (insert_new key now uuid t)
    insert_cases new = elim (Bool-cases (leb t.capacity t.entries.size)) [
      | inr room ↦ rw room (creates new (ground (arith, (swept-Inv now s v).sized)))
      | inl full ↦ elim (Option-cases (victim t.lru)) [
        | inl busy ↦
            rw (full, busy) (refuses (inr (busy, ground (arith, (swept-Inv now s v).sized))))
        | inr (w, p) ↦ rw (full, p) (evicts w new p)
      ]
    ]

    pub acquire_cases : P (acquire key now uuid s)
    unfolding acquire
    acquire_cases = elim (Option-cases (find key t.lru)) [
      | inl new ↦ rw ((swept-Inv now s v).agree key, new) (insert_cases new)
      | inr (h, p) ↦
          let (e, held, same) = deref-find key h t.lru (swept-Inv now s v).distinct p in
          rw ((swept-Inv now s v).agree key, p, held)
            (resume_cases e
              (subst (λ j. deref j t.lru ≡ some e) (sym (deref-handle h t.lru e held)) held) same)
    ]

pub evict_room :
    (e : Entry) (s : Store)
    → Inv s
    → length (evict e s).lru + 1 ≡ length s.lru
    → length (evict e s).lru < (evict e s).capacity
unfolding evict
evict_room e s v h = omega (arith, v.bounded)

reserve_granted : (now : ℕ) (e : Entry) (s : Store) → (reserve now e s).1 ≢ dangling
unfolding reserve
reserve_granted now e s p = cc

create_granted :
    (key : Key) (now : ℕ) (uuid : String) (s : Store) → (create key now uuid s).1 ≢ dangling
unfolding create
create_granted key now uuid s p = cc

-- Every call of `acquire` keeps the store well formed, and follows no address that dangles.
pub acquire-Inv :
    (key : Key) (now : ℕ) (uuid : String) (s : Store)
    → Inv s
    → Inv (acquire key now uuid s).0 × ((acquire key now uuid s).1 ≢ dangling)
acquire-Inv key now uuid s v =
    let w = swept-Inv now s v in
    acquire_cases (λ r. Inv r.0 × (r.1 ≢ dangling)) key now uuid s v (λ _. (w, λ e. cc))
      (λ e held _ _. (reserve-Inv now e _ w held, reserve_granted now e _))
      (λ new room. (create-Inv key now uuid _ w new room, create_granted key now uuid _))
      (λ x new p.
        let (u, shorter, found) = evict-Inv x _ w (victim-deref _ x w.distinct p).0 in
        (
          create-Inv key now uuid _ u (ground (arith, found key))
              (evict_room x (swept now s) w shorter),
          create_granted key now uuid _,
        ))

pub release_now-Inv : (h now : ℕ) (s : Store) → Inv s → Inv (release_now h now s)
unfolding release_now
release_now-Inv h now s v = elim (Option-cases (deref h s.lru)) [
  | inl gone ↦ rw (gone, release_now) v
  | inr (e, p) ↦
      rw (p, release_now)
        (front-Inv s e (record e { busy = false; touched = now }) v
          (subst (λ j. deref j s.lru ≡ some e) (sym (deref-handle h s.lru e p)) p) (refl, refl))
]

-- The release closure keeps the store well formed too, also when its entry is gone.
pub release-Inv : (r : Release) (now : ℕ) (s : Store) → Inv s → Inv (release r now s).1
unfolding release
release-Inv r now s v = elim (Bool-cases r.fired) [
  | inl fired ↦ rw fired v
  | inr armed ↦ rw armed (release_now-Inv r.handle now s v)
]

pub acquire-capacity :
    (key : Key) (now : ℕ) (uuid : String) (s : Store)
    → Inv s
    → (acquire key now uuid s).0.capacity ≡ s.capacity
unfolding swept reserve create evict
acquire-capacity key now uuid s v =
    acquire_cases (λ r. r.0.capacity ≡ s.capacity) key now uuid s v (λ _. refl) (λ e _ _ _. refl)
      (λ _ _. refl) (λ w _ _. refl)

pub release-capacity :
    (r : Release) (now : ℕ) (s : Store) → (release r now s).1.capacity ≡ s.capacity
unfolding release
release-capacity r now s = ground arith
