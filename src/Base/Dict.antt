-- ===== src/Base/Dict.antt =====
-- Go maps with numbers for keys, as association lists. A `range` loop visits the entries in the
-- order of the list.
use Prim.Native.Nat.{ℕ, ◌+◌}
use mathlib.Core.Path.{◌≡◌, refl}
use mathlib.Core.Bool.{Bool, true, false}
use mathlib.Core.Option.{Option, none, some}
use mathlib.Core.List.{List, [], ◌∷◌}
use native.Mathlib.Omega.{arith}
use x_fec.Base.Tests.{◌==◌, if◌then◌else◌}
use x_fec.Base.Lists.{length}

abbrev pub Dict {ℓ} : Type ℓ → Type ℓ
Dict A = List (ℕ × A)

abbrev pub values {ℓ} : {V : Type ℓ} → Dict V → List V
values [] = []
values ((j, v) ∷ m) = v ∷ values m

abbrev pub insert {ℓ} : {V : Type ℓ} → ℕ → V → Dict V → Dict V
insert key new [] = (key, new) ∷ []
insert key new ((j, old) ∷ m) = if j == key then (key, new) ∷ m else (j, old) ∷ insert key new m

abbrev pub lookup {ℓ} : {V : Type ℓ} → ℕ → Dict V → Option V
lookup key ((j, v) ∷ m) = if j == key then some v else lookup key m
lookup key [] = none

abbrev pub has {ℓ} : {V : Type ℓ} → ℕ → Dict V → Bool
has key m = elim (lookup key m) [ none ↦ false | some v ↦ true ]

module _ {ℓ} {V : Type ℓ} where
  -- A lookup after an insertion.
  pub lookup-insert :
      (k j : ℕ) (v : V) (m : Dict V)
      → lookup j (insert k v m) ≡ (if k == j then some v else lookup j m)
  lookup-insert k j v [] = refl
  lookup-insert k j v ((i, w) ∷ m) = ground (arith, lookup-insert k j v m)

  -- A new key makes the map one larger, an old one leaves its size.
  pub length-insert_new :
      (k : ℕ) (v : V) (m : Dict V) → has k m ≡ false → length (insert k v m) ≡ length m + 1
  length-insert_new k v [] h = refl
  length-insert_new k v ((i, w) ∷ m) h = ground (arith, length-insert_new k v m)

  pub length-insert_old :
      (k : ℕ) (v : V) (m : Dict V) → has k m ≡ true → length (insert k v m) ≡ length m
  length-insert_old k v [] h = cc
  length-insert_old k v ((i, w) ∷ m) h = ground (arith, length-insert_old k v m)
