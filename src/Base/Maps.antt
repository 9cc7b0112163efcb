-- ===== src/Base/Maps.antt =====
-- `HashMap` and `HashSet` on number keys as functions: what the code observes is the lookup.
use Prim.Native.Nat.{ℕ}
use mathlib.Core.Bool.{Bool, true, false}
use mathlib.Core.Option.{Option, none, some}
use mathlib.Core.Path.{◌≡◌, refl}
use nak.Base.Tests.{◌==◌, if◌then◌else◌}

abbrev pub Map {ℓ} : Type ℓ → Type ℓ
Map V = ℕ → Option V

abbrev pub empty {ℓ} : {V : Type ℓ} → Map V
empty k = none

abbrev pub insert {ℓ} : {V : Type ℓ} → Map V → ℕ → V → Map V
insert m k v j = if k == j then some v else m j

abbrev pub remove {ℓ} : {V : Type ℓ} → Map V → ℕ → Map V
remove m k j = if k == j then none else m j

abbrev pub is_some {ℓ} : {V : Type ℓ} → Option V → Bool
is_some (some v) = true
is_some none = false

abbrev pub contains_key {ℓ} : {V : Type ℓ} → Map V → ℕ → Bool
contains_key m k = is_some (m k)

abbrev pub NumSet : Type 0
NumSet = ℕ → Bool

abbrev pub no_elements : NumSet
no_elements k = false

abbrev pub set_insert : NumSet → ℕ → NumSet
set_insert s k j = if k == j then true else s j

abbrev pub set_remove : NumSet → ℕ → NumSet
set_remove s k j = if k == j then false else s j

module _ {ℓ} {V : Type ℓ} where
  is_some_if :
      (b : Bool) (o o' : Option V)
      → is_some (if b then o else o') ≡ (if b then is_some o else is_some o')
  is_some_if true o o' = refl
  is_some_if false o o' = refl

  pub contains_key-insert :
      (m : Map V) (k : ℕ) (v : V) (j : ℕ)
      → contains_key (insert m k v) j ≡ (if k == j then true else contains_key m j)
  contains_key-insert m k v j = is_some_if (k == j) (some v) (m j)

  pub contains_key-remove :
      (m : Map V) (k j : ℕ)
      → contains_key (remove m k) j ≡ (if k == j then false else contains_key m j)
  contains_key-remove m k j = is_some_if (k == j) none (m j)
