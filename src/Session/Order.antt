-- ===== src/Session/Order.antt =====
-- Facts about the list of entries: no two share a key or an address, and each has an address that
-- the store has given out.
use cmdcode_go.Base.{
  ℕ, ◌+◌, ◌≡◌, ◌≢◌, refl, Option, none, some, List, [], ◌∷◌, ite, ℕ_discrete, arith, length, All,
  subst, if_pos, if_neg,
}
use cmdcode_go.Session.{Key, Key-discrete, Entry, deref, remove}

abbrev pub Distinct : List Entry → Type 0
Distinct [] = Unit
Distinct (e ∷ es) = All (λ x. x.key ≢ e.key) es × All (λ x. x.handle ≢ e.handle) es × Distinct es

-- The address of the entry with the key.
unfoldable pub find : Key → List Entry → Option ℕ
find k [] = none
find k (e ∷ es) = ite (Key-discrete e.key k) (some e.handle) (find k es)

module _ (P : Entry → Type 0) where
  pub All-remove : (h : ℕ) (es : List Entry) → All P es → All P (remove h es)
  unfolding remove
  All-remove h [] a = tt
  All-remove h (e ∷ es) a = ground (arith, All-remove h es)

pub remove-Distinct : (h : ℕ) (es : List Entry) → Distinct es → Distinct (remove h es)
unfolding remove
remove-Distinct h [] d = tt
remove-Distinct h (e ∷ es) d = ground (
  arith,
  remove-Distinct h es,
  All-remove (λ x. x.key ≢ e.key) h es,
  All-remove (λ x. x.handle ≢ e.handle) h es,
)

-- What holds of every entry holds of the one at an address.
pub All-deref :
    (P : Entry → Type 0) (h : ℕ) (es : List Entry) (e : Entry)
    → All P es
    → deref h es ≡ some e
    → P e
unfolding deref
All-deref P h [] e a q = cc
All-deref P h (x ∷ es) e a q = elim (ℕ_discrete x.handle h) [
  | yes p ↦ let same : x ≡ e = ground arith in subst P same a.0
  | no n ↦ All-deref P h es e a.1 (ground arith)
]

pub deref-handle : (h : ℕ) (es : List Entry) (e : Entry) → deref h es ≡ some e → e.handle ≡ h
unfolding deref
deref-handle h [] e q = cc
deref-handle h (x ∷ es) e q = ground (arith, deref-handle h es e)

pub remove_drops : (h : ℕ) (es : List Entry) → Distinct es → All (λ x. x.handle ≢ h) (remove h es)
unfolding remove
remove_drops h [] d = tt
remove_drops h (e ∷ es) d = elim (ℕ_discrete e.handle h) [
  | yes p ↦ rw (if_pos _ p) (subst (λ j. All (λ x. x.handle ≢ j) es) p d.1)
  | no n ↦ rw (if_neg _ n) (n, remove_drops h es d.2)
]

pub find_absent : (k : Key) (es : List Entry) → All (λ x. x.key ≢ k) es → find k es ≡ none
unfolding find
find_absent k [] a = refl
find_absent k (e ∷ es) a = ground (arith, find_absent k es)

pub absent_of_find : (k : Key) (es : List Entry) → find k es ≡ none → All (λ x. x.key ≢ k) es
unfolding find
absent_of_find k [] a = tt
absent_of_find k (e ∷ es) a = ground (arith, absent_of_find k es)

pub deref_absent : (h : ℕ) (es : List Entry) → All (λ x. x.handle ≢ h) es → deref h es ≡ none
unfolding deref
deref_absent h [] a = refl
deref_absent h (e ∷ es) a = ground (arith, deref_absent h es)

-- The address found is that of an entry with the key.
pub deref-find :
    (k : Key) (h : ℕ) (es : List Entry)
    → Distinct es
    → find k es ≡ some h
    → (e : Entry) × (deref h es ≡ some e) × (e.key ≡ k)
unfolding find deref
deref-find k h [] d p = cc
deref-find k h (e ∷ es) d p = elim (Key-discrete e.key k) [
  | yes q ↦ (e, ground arith, q)
  | no q ↦
      let (x, found, same) = deref-find k h es d.2 (ground arith) in
      (
        x,
        ground (arith, All-deref (λ y. y.handle ≢ e.handle) h es x d.1, deref-handle h es x),
        same,
      )
]

-- The other way round.
pub find-deref :
    (h : ℕ) (es : List Entry) (e : Entry)
    → Distinct es
    → deref h es ≡ some e
    → find e.key es ≡ some h
unfolding find deref
find-deref h [] e d q = cc
find-deref h (x ∷ es) e d q = elim (ℕ_discrete x.handle h) [
  | yes p ↦ ground arith
  | no n ↦
      let r : deref h es ≡ some e = ground arith in
      ground (arith, find-deref h es e d.2 r, All-deref (λ y. y.key ≢ x.key) h es e d.0 r)
]

-- Without the entry of a key, that key is not found, and each other is found where it was.
pub find-remove :
    (k : Key) (es : List Entry) (e : Entry)
    → Distinct es
    → deref e.handle es ≡ some e
    → find k (remove e.handle es) ≡ ite (Key-discrete k e.key) none (find k es)
unfolding find deref remove
find-remove k [] e d q = cc
find-remove k (x ∷ es) e d q = elim (ℕ_discrete x.handle e.handle) [
  | yes p ↦ rw (if_pos _ p) (ground (arith, find_absent x.key es d.0))
  | no n ↦
      let r : deref e.handle es ≡ some e = ground arith in
      ground (arith, find-remove k es e d.2 r, All-deref (λ y. y.key ≢ x.key) e.handle es e d.0 r)
]

pub length-remove :
    (h : ℕ) (es : List Entry) (e : Entry)
    → deref h es ≡ some e
    → length (remove h es) + 1 ≡ length es
unfolding deref remove
length-remove h [] e q = cc
length-remove h (x ∷ es) e q = ground (arith, length-remove h es e)

-- Removing another entry leaves an entry where it is.
pub deref-remove_ne : (h j : ℕ) (es : List Entry) → j ≢ h → deref j (remove h es) ≡ deref j es
unfolding deref remove
deref-remove_ne h j [] n = refl
deref-remove_ne h j (x ∷ es) n = ground (arith, deref-remove_ne h j es n)

pub deref-cons_self : (e : Entry) (es : List Entry) → deref e.handle (e ∷ es) ≡ some e
unfolding deref
deref-cons_self e es = ground arith
