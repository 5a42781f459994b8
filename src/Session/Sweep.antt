-- ===== src/Session/Sweep.antt =====
-- The expiry loop of `acquire`: what it takes from the map it takes from the list, and it keeps the
-- entries in use.
use cmdcode_go.Base.{
  ℕ, ◌+◌, ◌≤◌, ◌≡◌, ◌≢◌, refl, Bool, true, false, ◌||◌, none, some, List, [], ◌∷◌, ite, arith,
  length, All, if◌then◌else◌, GoMap, is_some,
}
use cmdcode_go.Session.{Key, Key-discrete, Entry, deref, sweep, expired}
use cmdcode_go.Session.Order.{Distinct, find, find_absent}

module _ (now ttl : ℕ) where
  -- The key is that of an entry that has expired.
  drops : Key → List Entry → Bool
  drops k [] = false
  drops k (e ∷ es) = ite (Key-discrete k e.key) (expired now ttl e) false || drops k es

  drops_absent : (k : Key) (es : List Entry) → All (λ x. x.key ≢ k) es → drops k es ≡ false
  unfolding drops
  drops_absent k [] a = refl
  drops_absent k (e ∷ es) a = ground (arith, drops_absent k es)

  pub All-sweep :
      (P : Entry → Type 0) (m : GoMap Key ℕ) (es : List Entry)
      → All P es
      → All P (sweep now ttl m es).1
  unfolding sweep
  All-sweep P m [] a = tt
  All-sweep P m (e ∷ es) a = ground (arith, All-sweep P m es)

  pub sweep-Distinct :
      (m : GoMap Key ℕ) (es : List Entry) → Distinct es → Distinct (sweep now ttl m es).1
  unfolding sweep
  sweep-Distinct m [] d = tt
  sweep-Distinct m (e ∷ es) d = ground (
    arith,
    sweep-Distinct m es,
    All-sweep (λ x. x.key ≢ e.key) m es,
    All-sweep (λ x. x.handle ≢ e.handle) m es,
  )

  sweep-get :
      (k : Key) (m : GoMap Key ℕ) (es : List Entry)
      → (sweep now ttl m es).0.get k ≡ (if drops k es then none else m.get k)
  unfolding sweep drops
  sweep-get k m [] = refl
  sweep-get k m (e ∷ es) = ground (arith, sweep-get k m es)

  find-sweep :
      (k : Key) (m : GoMap Key ℕ) (es : List Entry)
      → Distinct es
      → find k (sweep now ttl m es).1 ≡ (if drops k es then none else find k es)
  unfolding sweep drops find
  find-sweep k m [] d = refl
  find-sweep k m (e ∷ es) d =
      ground (arith, find-sweep k m es, find_absent e.key es d.0, drops_absent e.key es d.0)

  -- A map that agrees with the list still does.
  pub sweep-agree :
      (k : Key) (m : GoMap Key ℕ) (es : List Entry)
      → Distinct es
      → m.get k ≡ find k es
      → (sweep now ttl m es).0.get k ≡ find k (sweep now ttl m es).1
  sweep-agree k m es d a = ground (arith, sweep-get k m es, find-sweep k m es d)

  pub sweep-size :
      (m : GoMap Key ℕ) (es : List Entry)
      → Distinct es
      → All (λ e. is_some (m.get e.key) ≡ true) es
      → length es ≤ m.size
      → (sweep now ttl m es).0.size + length es ≡ m.size + length (sweep now ttl m es).1
  unfolding sweep
  sweep-size m [] d a h = refl
  sweep-size m (e ∷ es) d a h =
      ground (arith, sweep-size m es d.2 a.1, sweep-get e.key m es, drops_absent e.key es d.0)

  pub length-sweep-le :
      (m : GoMap Key ℕ) (es : List Entry) → length (sweep now ttl m es).1 ≤ length es
  unfolding sweep
  length-sweep-le m [] = omega arith
  length-sweep-le m (e ∷ es) = ground (arith, length-sweep-le m es)

  -- An entry that has not expired stays, as it was.
  pub deref-sweep :
      (h : ℕ) (m : GoMap Key ℕ) (es : List Entry) (e : Entry)
      → Distinct es
      → deref h es ≡ some e
      → expired now ttl e ≡ false
      → deref h (sweep now ttl m es).1 ≡ some e
  unfolding sweep deref
  deref-sweep h m [] e d q b = cc
  deref-sweep h m (x ∷ es) e d q b = ground (arith, deref-sweep h m es e d.2)
