-- ===== src/Base/Texts.antt =====
-- Texts are the native `String`: sequences of Unicode scalar values, `len` in bytes of UTF-8 as Go's
-- `len`. What the program uses of Go's packages `strings`, `bytes` and `unicode` is written out here.
-- `ToLower` is written out for ASCII letters only: model names, header names and switches are ASCII.
use Prim.Native.Char.{Char, code}
use Prim.Native.Nat.{ℕ, zero, suc, ◌-◌}
use Prim.Native.String.{String, [], ◌∷◌, char_at}
use mathlib.Core.Path.{◌≡◌, refl, sym, ap, ◌∙◌}
use mathlib.Core.Bool.{Bool, true, false, ◌&&◌, ◌||◌}
use mathlib.Core.Logic.{inl, inr, ◌⊎◌}
use mathlib.Core.Option.{Option, none, some}
use mathlib.Core.List.{List}
use native.Mathlib.Omega.{arith}
use text.Mathlib.Text.{◌==◌}
use text.Mathlib.TextEquality.{eq_iff, Char-path}
use text.Mathlib.TextLemmas.{cons-append, nil-append}
use cmdcode_go.Base.Tests.{if◌then◌else◌, leb, eqb, Bool-cases}

infixr 65 ◌^^◌
abbrev pub ◌^^◌ : String → String → String
s ^^ t = Prim.Native.String.◌++◌ s t

pub not-eq : (s t : String) → (s == t) ≡ false → ¬ (s ≡ t)
not-eq s t e p = ground (arith, (eq_iff s t).1 p)

unfoldable pub str_dec : Discrete String
unfolding Bool-cases
str_dec s t = elim (Bool-cases (s == t)) [
  | inl e ↦ yes ((eq_iff s t).0 e)
  | inr e ↦ no (not-eq s t e)
]

abbrev pub is_empty : String → Bool
is_empty [] = true
is_empty (c ∷ s) = false

-- `unicode.IsSpace`
unfoldable pub is_space : ℕ → Bool
is_space c =
    leb 9 c && leb c 13
    || eqb c 32
    || eqb c 0x85
    || eqb c 0xA0
    || eqb c 0x1680
    || leb 0x2000 c && leb c 0x200a
    || eqb c 0x2028
    || eqb c 0x2029
    || eqb c 0x202f
    || eqb c 0x205f
    || eqb c 0x3000

-- `unicode.IsControl`
unfoldable pub is_control : ℕ → Bool
is_control c = leb c 31 || leb 127 c && leb c 159

unfoldable pub trim_left : String → String
unfolding is_space
trim_left [] = []
trim_left (c ∷ s) = let rest = trim_left s in if is_space (code c) then rest else c ∷ s

-- A blank is dropped if nothing but blanks follows it.
abbrev keep_unless : Bool → Char → String → String
keep_unless b c [] = if b then [] else c ∷ []
keep_unless b c (d ∷ s) = c ∷ d ∷ s

unfoldable pub trim_right : String → String
unfolding is_space
trim_right [] = []
trim_right (c ∷ s) = keep_unless (is_space (code c)) c (trim_right s)

-- A character that is no blank stays, and so does all before it.
keep_unless-no : (c : Char) (s : String) → keep_unless false c s ≡ c ∷ s
keep_unless-no c [] = refl
keep_unless-no c (d ∷ s) = refl

pub trim_right-keeps :
    (c : Char) (s : String) → is_space (code c) ≡ false → trim_right (c ∷ s) ≡ c ∷ trim_right s
unfolding trim_right
trim_right-keeps c s h = simp h (keep_unless-no c (trim_right s))

-- `strings.TrimSpace`
unfoldable pub trim_space : String → String
unfolding trim_left trim_right
trim_space s = trim_right (trim_left s)

abbrev pub is_upper : ℕ → Bool
is_upper c = leb b'A' c && leb c b'Z'

unfoldable pub lower_char : Char → Char
lower_char c = if is_upper (code c) then char_at "abcdefghijklmnopqrstuvwxyz" (code c - b'A') else c

-- `strings.ToLower`, on ASCII letters
unfoldable pub to_lower : String → String
unfolding lower_char
to_lower [] = []
to_lower (c ∷ s) = lower_char c ∷ to_lower s

unfoldable pub drop_chars : ℕ → String → String
drop_chars zero s = s
drop_chars (suc n) [] = []
drop_chars (suc n) (c ∷ s) = drop_chars n s

-- `strings.HasPrefix`
unfoldable pub has_prefix : String → String → Bool
has_prefix s [] = true
has_prefix [] (d ∷ p) = false
has_prefix (c ∷ s) (d ∷ p) = eqb (code c) (code d) && has_prefix s p

abbrev strip : String → String → Option String
strip s [] = some s
strip [] (d ∷ p) = none
strip (c ∷ s) (d ∷ p) = let rest = strip s p in if eqb (code c) (code d) then rest else none

abbrev or_text : Option String → String → String
or_text none s = s
or_text (some t) s = t

-- `strings.TrimPrefix`
unfoldable pub trim_prefix : String → String → String
trim_prefix s p = or_text (strip s p) s

-- A prefix that is there is taken off, and nothing else is.
abbrev StripCases : String → String → Option String → Type 0
StripCases s p none = has_prefix s p ≡ false
StripCases s p (some t) = (has_prefix s p ≡ true) × (s ≡ p ^^ t)

StripCases-cons :
    (c d : Char) (s p : String) (o : Option String) (b : Bool)
    → eqb (code c) (code d) ≡ b
    → StripCases s p o
    → StripCases (c ∷ s) (d ∷ p) (if b then o else none)
unfolding has_prefix
StripCases-cons c d s p o false q h = simp q refl
StripCases-cons c d s p none true q h = simp (q, h) refl
StripCases-cons c d s p (some t) true q h =
    let same : c ≡ d = Char-path c d (ground arith) in
    (
      simp (q, h.0) refl,
      ap (λ r. c ∷ r) h.1 ∙ ap (λ x. x ∷ (p ^^ t)) same ∙ sym (cons-append d p t),
    )

strip-StripCases : (s p : String) → StripCases s p (strip s p)
unfolding has_prefix
strip-StripCases s [] = (refl, sym (nil-append s))
strip-StripCases [] (d ∷ p) = refl
strip-StripCases (c ∷ s) (d ∷ p) =
    StripCases-cons c d s p (strip s p) (eqb (code c) (code d)) refl (strip-StripCases s p)

or_text-cases :
    (s p : String) (o : Option String)
    → StripCases s p o
    → ((has_prefix s p ≡ true) × (s ≡ p ^^ or_text o s))
      ⊎ ((has_prefix s p ≡ false) × (or_text o s ≡ s))
or_text-cases s p none h = inr (h, refl)
or_text-cases s p (some t) h = inl h

pub trim_prefix_cases :
    (s p : String)
    → ((has_prefix s p ≡ true) × (s ≡ p ^^ trim_prefix s p))
      ⊎ ((has_prefix s p ≡ false) × (trim_prefix s p ≡ s))
unfolding trim_prefix
trim_prefix_cases s p = or_text-cases s p (strip s p) (strip-StripCases s p)

-- The text before and after the last occurrence of an ASCII character: `strings.LastIndex` and the
-- two slices that its callers take.
abbrev behind : Bool → Char → String → Option (String × String) → Option (String × String)
behind hit c s (some (before, after)) = some (c ∷ before, after)
behind true c s none = some ([], s)
behind false c s none = none

unfoldable pub split_last : ℕ → String → Option (String × String)
split_last d [] = none
split_last d (c ∷ s) = behind (eqb (code c) d) c s (split_last d s)

abbrev before_first : Bool → Char → String → Option (String × String) → Option (String × String)
before_first true c s rest = some ([], s)
before_first false c s none = none
before_first false c s (some (before, after)) = some (c ∷ before, after)

-- The text before and after the first occurrence of an ASCII character.
unfoldable pub split_first : ℕ → String → Option (String × String)
split_first d [] = none
split_first d (c ∷ s) = before_first (eqb (code c) d) c s (split_first d s)

-- `strings.HasSuffix` for one character, and the text without its last character
unfoldable pub ends_with : ℕ → String → Bool
ends_with d [] = false
ends_with d (c ∷ []) = eqb (code c) d
ends_with d (c ∷ e ∷ s) = ends_with d (e ∷ s)

unfoldable pub drop_last : String → String
drop_last [] = []
drop_last (c ∷ []) = []
drop_last (c ∷ e ∷ s) = c ∷ drop_last (e ∷ s)

-- Some character satisfies the test: `strings.Contains` of a character, `strings.ContainsAny`.
unfoldable pub any_char : (ℕ → Bool) → String → Bool
any_char p [] = false
any_char p (c ∷ s) = p (code c) || any_char p s

abbrev onto_first : Char → List String → List String
onto_first c List.[] = List.◌∷◌ (c ∷ []) List.[]
onto_first c (List.◌∷◌ part parts) = List.◌∷◌ (c ∷ part) parts

-- `strings.Split` at an ASCII character
unfoldable pub split_all : ℕ → String → List String
split_all d [] = List.◌∷◌ "" List.[]
split_all d (c ∷ s) =
    let parts = split_all d s in if eqb (code c) d then List.◌∷◌ "" parts else onto_first c parts

-- `strings.TrimRight` with one ASCII character
unfoldable pub trim_right_of : ℕ → String → String
trim_right_of d [] = []
trim_right_of d (c ∷ s) = keep_unless (eqb (code c) d) c (trim_right_of d s)

keep_unless-ends :
    (d : ℕ) (c : Char) (rest : String)
    → ends_with d rest ≡ false
    → ends_with d (keep_unless (eqb (code c) d) c rest) ≡ false
unfolding ends_with
keep_unless-ends d c [] h = elim (Bool-cases (eqb (code c) d)) [
  | inl y ↦ simp y refl
  | inr n ↦ simp n refl
]
keep_unless-ends d c (e ∷ s) h = h

pub trim_right_of-ends : (d : ℕ) (s : String) → ends_with d (trim_right_of d s) ≡ false
unfolding trim_right_of ends_with
trim_right_of-ends d [] = refl
trim_right_of-ends d (c ∷ s) = keep_unless-ends d c (trim_right_of d s) (trim_right_of-ends d s)

-- `strings.Join`
unfoldable pub join : String → List String → String
join sep List.[] = ""
join sep (List.◌∷◌ s List.[]) = s
join sep (List.◌∷◌ s (List.◌∷◌ t ts)) = s ^^ sep ^^ join sep (List.◌∷◌ t ts)

trims : trim_space "\t a b \n" ≡ "a b"
unfolding trim_space
trims = refl

lowers : to_lower "Kimi-K3" ≡ "kimi-k3"
unfolding to_lower
lowers = refl

splits : split_last b'/' "a/b/c" ≡ some ("a/b", "c")
unfolding split_last
splits = refl

strips : trim_prefix "cmdcode-go/x" "cmdcode-go/" ≡ "x"
unfolding trim_prefix
strips = refl

-- Trimming keeps a prefix without blanks.
trim_right-prefix :
    (p s : String) → any_char is_space p ≡ false → has_prefix (trim_right (p ^^ s)) p ≡ true
unfolding any_char has_prefix
trim_right-prefix [] s h = refl
trim_right-prefix (c ∷ p) s h =
    let solid : is_space (code c) ≡ false = ground arith in
    let rest = trim_right-prefix p s (ground arith) in
    simp (cons-append c p s, trim_right-keeps c (p ^^ s) solid, rest) (ground arith)

pub trim_space-prefix :
    (c : Char) (p s : String)
    → any_char is_space (c ∷ p) ≡ false
    → has_prefix (trim_space ((c ∷ p) ^^ s)) (c ∷ p) ≡ true
unfolding any_char trim_space trim_left
trim_space-prefix c p s h =
    let solid : is_space (code c) ≡ false = ground arith in
    let same : trim_left ((c ∷ p) ^^ s) ≡ (c ∷ p) ^^ s = simp (cons-append c p s, solid) refl in
    simp same (trim_right-prefix (c ∷ p) s h)
