-- ===== src/Base/Results.antt =====
-- A Go function that returns a value or an error. Errors are data: what is compared or passed on is
-- which check failed and with which values, not the text that `fmt.Errorf` makes of it.
use mathlib.Core.Path.{◌≡◌, refl}
use mathlib.Core.Bool.{Bool, true, false}

pub data Result {ℓ} (E A : Type ℓ) : Type ℓ where
  err : E → Result E A
  ok : A → Result E A

-- `ok a` goes to what comes next, an error to the end.
infixl 5 ◌>>=◌
abbrev pub ◌>>=◌ {ℓ} : {E X Y : Type ℓ} → Result E X → (X → Result E Y) → Result E Y
r >>= next = elim r [ ok x ↦ next x | err failure ↦ err failure ]

infixl 5 ◌>>◌
abbrev pub ◌>>◌ : {E Y : Type 0} → Result E (Unit {0}) → Result E Y → Result E Y
check >> next = elim check [ ok passed ↦ next | err failure ↦ err failure ]

-- `if b { return …, e }`
abbrev pub fails_if : {E : Type 0} → Bool → E → Result E (Unit {0})
fails_if b e = elim b [ false ↦ ok tt | true ↦ err e ]

-- What a chain that succeeds went through.
pub >>=-eq-ok {ℓ} :
    {E X Y : Type ℓ} (r : Result E X) (next : X → Result E Y) {y : Y}
    → (r >>= next) ≡ ok y
    → (x : X) × (r ≡ ok x) × (next x ≡ ok y)
>>=-eq-ok (err failure) next success = cc
>>=-eq-ok (ok x) next success = (x, refl, success)

pub ok_inj {ℓ} : {E A : Type ℓ} {a b : A} → ◌≡◌ {A = Result E A} (ok a) (ok b) → a ≡ b
ok_inj same = cc

-- What a check that passes has seen.
pub fails_if-ok :
    {E Y : Type 0} (b : Bool) (e : E) (next : Result E Y) {y : Y}
    → (fails_if b e >> next) ≡ ok y
    → (b ≡ false) × (next ≡ ok y)
fails_if-ok false e next success = (refl, success)
fails_if-ok true e next success = cc

pub fails_if-last : {E : Type 0} (b : Bool) (e : E) {u : Unit {0}} → fails_if b e ≡ ok u → b ≡ false
fails_if-last false e success = refl
fails_if-last true e success = cc

pub >>-eq-ok :
    {E Y : Type 0} (check : Result E (Unit {0})) (next : Result E Y) {y : Y}
    → (check >> next) ≡ ok y
    → (u : Unit {0}) × (check ≡ ok u) × (next ≡ ok y)
>>-eq-ok (err failure) next success = cc
>>-eq-ok (ok u) next success = (u, refl, success)
