-- ===== src/Base/Joined.antt =====
-- What the text functions do to a text that is put together of parts.
use Prim.Native.Char.{Char, code}
use Prim.Native.Nat.{ℕ}
use Prim.Native.String.{String, [], ◌∷◌}
use mathlib.Core.Path.{◌≡◌, refl, subst}
use mathlib.Core.Bool.{Bool, true, false, ◌||◌}
use mathlib.Core.Logic.{inl, inr}
use mathlib.Core.Option.{none, some}
use native.Mathlib.Omega.{arith}
use text.Mathlib.TextLemmas.{cons-append, nil-append}
use cmdcode_go.Base.Tests.{eqb, Bool-cases}
use cmdcode_go.Base.Texts.{
  ◌^^◌, is_space, trim_left, trim_right, ends_with, drop_last, split_last, any_char,
}

pub trim_left_idem : (s : String) → trim_left (trim_left s) ≡ trim_left s
unfolding trim_left
trim_left_idem [] = refl
trim_left_idem (c ∷ s) = elim (Bool-cases (is_space (code c))) [
  | inl y ↦ simp y (trim_left_idem s)
  | inr n ↦ simp n refl
]

-- Blanks before a part that begins with none are those before all.
pub trim_left-append :
    (s : String) (c : Char) (t : String)
    → is_space (code c) ≡ false
    → trim_left (s ^^ (c ∷ t)) ≡ trim_left s ^^ (c ∷ t)
unfolding trim_left
trim_left-append [] c t n = simp (nil-append (c ∷ t), n) refl
trim_left-append (d ∷ s) c t n = elim (Bool-cases (is_space (code d))) [
  | inl y ↦ simp (cons-append d s (c ∷ t), y) (trim_left-append s c t n)
  | inr m ↦ simp (cons-append d s (c ∷ t), m) refl
]

-- A last character that is no blank keeps all.
pub trim_right-closed :
    (s : String) (c : Char) → is_space (code c) ≡ false → trim_right (s ^^ (c ∷ [])) ≡ s ^^ (c ∷ [])
unfolding trim_right
trim_right-closed [] c n = simp (nil-append (c ∷ []), n) refl
trim_right-closed (d ∷ []) c n = simp (cons-append d [] (c ∷ []), nil-append (c ∷ []), n) refl
trim_right-closed (d ∷ e ∷ s) c n =
    let ih : trim_right (e ∷ (s ^^ (c ∷ []))) ≡ e ∷ (s ^^ (c ∷ [])) =
      subst (λ x. trim_right x ≡ x) (cons-append e s (c ∷ [])) (trim_right-closed (e ∷ s) c n) in
    simp (cons-append d (e ∷ s) (c ∷ []), cons-append e s (c ∷ []), ih) refl

pub ends_with-closed : (s : String) (c : Char) → ends_with (code c) (s ^^ (c ∷ [])) ≡ true
unfolding ends_with
ends_with-closed [] c = simp (nil-append (c ∷ [])) (ground arith)
ends_with-closed (d ∷ []) c = simp (cons-append d [] (c ∷ []), nil-append (c ∷ [])) (ground arith)
ends_with-closed (d ∷ e ∷ s) c =
    simp (cons-append d (e ∷ s) (c ∷ []), cons-append e s (c ∷ []))
      (subst (λ x. ends_with (code c) x ≡ true) (cons-append e s (c ∷ []))
        (ends_with-closed (e ∷ s) c))

pub drop_last-closed : (s : String) (c : Char) → drop_last (s ^^ (c ∷ [])) ≡ s
unfolding drop_last
drop_last-closed [] c = simp (nil-append (c ∷ [])) refl
drop_last-closed (d ∷ []) c = simp (cons-append d [] (c ∷ []), nil-append (c ∷ [])) refl
drop_last-closed (d ∷ e ∷ s) c =
    let ih : drop_last (e ∷ (s ^^ (c ∷ []))) ≡ e ∷ s =
      subst (λ x. drop_last x ≡ e ∷ s) (cons-append e s (c ∷ [])) (drop_last-closed (e ∷ s) c) in
    simp (cons-append d (e ∷ s) (c ∷ []), cons-append e s (c ∷ []), ih) refl

split_last-none : (d : ℕ) (s : String) → any_char (λ c. eqb c d) s ≡ false → split_last d s ≡ none
unfolding split_last any_char
split_last-none d [] h = refl
split_last-none d (c ∷ s) h =
    let miss : eqb (code c) d ≡ false = ground arith in
    simp (split_last-none d s (ground arith), miss) refl

pub split_last-joined :
    (s : String) (c : Char) (t : String)
    → any_char (λ x. eqb x (code c)) t ≡ false
    → split_last (code c) (s ^^ (c ∷ t)) ≡ some (s, t)
unfolding split_last
split_last-joined [] c t h =
    let hit : eqb (code c) (code c) ≡ true = ground arith in
    simp (nil-append (c ∷ t), split_last-none (code c) t h, hit) refl
split_last-joined (d ∷ s) c t h = simp (cons-append d s (c ∷ t), split_last-joined s c t h) refl

-- A character of neither part is not in the whole.
pub any_char-append :
    (p : ℕ → Bool) (s t : String) → any_char p (s ^^ t) ≡ (any_char p s || any_char p t)
unfolding any_char
any_char-append p [] t = simp (nil-append t) refl
any_char-append p (c ∷ s) t = simp (cons-append c s t, any_char-append p s t) (ground arith)
