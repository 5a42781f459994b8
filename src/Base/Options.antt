-- ===== src/Base/Options.antt =====
-- Chains of steps that may fail without a reason, as Go functions that return a value and a bool.
use mathlib.Core.Path.{◌≡◌, refl}
use mathlib.Core.Bool.{Bool, true, false}
use mathlib.Core.Option.{Option, none, some}

infixl 5 ◌>>=◌
abbrev pub ◌>>=◌ {ℓ} : {X Y : Type ℓ} → Option X → (X → Option Y) → Option Y
o >>= next = elim o [ none ↦ none | some x ↦ next x ]

infixl 5 ◌>>◌
abbrev pub ◌>>◌ : {Y : Type 0} → Option (Unit {0}) → Option Y → Option Y
check >> next = elim check [ none ↦ none | some passed ↦ next ]

-- `if b { return …, false }`
abbrev pub stops_if : Bool → Option (Unit {0})
stops_if b = elim b [ false ↦ some tt | true ↦ none ]

-- What a chain that succeeds went through.
pub >>=-eq-some {ℓ} :
    {X Y : Type ℓ} (o : Option X) (next : X → Option Y) {y : Y}
    → (o >>= next) ≡ some y
    → (x : X) × (o ≡ some x) × (next x ≡ some y)
>>=-eq-some none next success = cc
>>=-eq-some (some x) next success = (x, refl, success)

pub >>=-none {ℓ} :
    {X Y : Type ℓ} (o : Option X) → (o >>= λ x. none) ≡ ◌>>=◌ {X = X} {Y = Y} none (λ x. none)
>>=-none none = refl
>>=-none (some x) = refl
