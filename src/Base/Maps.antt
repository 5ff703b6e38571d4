-- ===== src/Base/Maps.antt =====
-- A finite map from numbers as a function, with the writes and erasures of std::map.
use serverlite.Base.Tests.{◌==◌, if◌then◌else◌, ==_refl}
use Prim.Native.Nat.{ℕ}
use mathlib.Core.Option.{Option, none, some}
use mathlib.Core.Path.{◌≡◌}
use mathlib.Core.Logic.{◌≢◌}
use native.Mathlib.Omega.{arith}
use mathlib.Core.Bool.{Bool, true, false}

abbrev pub Map {ℓ} : Type ℓ → Type ℓ
Map A = ℕ → Option A

module _ {ℓ} {A : Type ℓ} where
  abbrev pub insert : Map A → ℕ → A → Map A
  insert m k v j = if k == j then some v else m j

  abbrev pub erase : Map A → ℕ → Map A
  erase m k j = if k == j then none else m j

  abbrev pub contains : Map A → ℕ → Bool
  contains m k = elim (m k) [ none ↦ false | some _ ↦ true ]

  pub insert_self : (m : Map A) (k : ℕ) (v : A) → insert m k v k ≡ some v
  insert_self m k v = ground arith

  pub insert_other : (m : Map A) (k j : ℕ) (v : A) → j ≢ k → insert m k v j ≡ m j
  insert_other m k j v h = ground arith

  pub erase_self : (m : Map A) (k : ℕ) → erase m k k ≡ none
  erase_self m k = ground arith

  pub erase_other : (m : Map A) (k j : ℕ) → j ≢ k → erase m k j ≡ m j
  erase_other m k j h = ground arith

  pub contains-insert_self : (m : Map A) (k : ℕ) (v : A) → contains (insert m k v) k ≡ true
  contains-insert_self m k v = rw (==_refl k, contains)

  pub contains-erase_self : (m : Map A) (k : ℕ) → contains (erase m k) k ≡ false
  contains-erase_self m k = rw (==_refl k, contains)
