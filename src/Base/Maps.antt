-- ===== src/Base/Maps.antt =====
-- A Go map: what each key holds, and `len` of the map. The program never depends on the order in
-- which a map that is kept here is ranged over.
use Prim.Native.Nat.{ℕ, ◌+◌, ◌-◌}
use mathlib.Core.Logic.{ite}
use mathlib.Core.Option.{Option, none, some}
use cmdcode_go.Base.Tests.{if◌then◌else◌, is_some}

pub record GoMap {ℓ} (K V : Type ℓ) : Type ℓ where
  pub get : K → Option V
  pub size : ℕ

module _ {ℓ} {K V : Type ℓ} where
  -- make(map[K]V)
  abbrev pub empty_map : GoMap K V
  empty_map = record { get = λ k. none; size = 0 }

module _ {ℓ} {K V : Type ℓ} (dec : Discrete K) where
  -- m[k] = v
  abbrev pub put : K → V → GoMap K V → GoMap K V
  put k v m = record {
    get = λ j. ite (dec j k) (some v) (m.get j);
    size = if is_some (m.get k) then m.size else m.size + 1;
  }

  -- delete(m, k)
  abbrev pub delete : K → GoMap K V → GoMap K V
  delete k m = record {
    get = λ j. ite (dec j k) none (m.get j);
    size = if is_some (m.get k) then m.size - 1 else m.size;
  }
