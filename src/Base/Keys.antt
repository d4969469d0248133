-- ===== src/Base/Keys.antt =====
-- The keys of a map: none twice, and how many fit a range.
use x_fec.Base.Tests.{◌==◌, ==_iff, if◌then◌else◌, Bool-cases}
use x_fec.Base.Lists.{length, All}
use x_fec.Base.Dict.{Dict, has, insert, lookup-insert}
use Prim.Native.Nat.{ℕ, zero, suc, ◌+◌, ◌≤◌, ◌<◌}
use mathlib.Core.Path.{◌≡◌, refl, ◌∙◌}
use mathlib.Core.Logic.{◌≢◌, inl, inr}
use mathlib.Core.Bool.{true, false}
use mathlib.Core.List.{[], ◌∷◌}
use native.Mathlib.Omega.{arith}

-- No key stands twice.
abbrev pub NoDup {ℓ} : {V : Type ℓ} → Dict V → Type 0
NoDup [] = Unit
NoDup ((k, v) ∷ m) = (has k m ≡ false) × NoDup m

abbrev pub IsWithin : ℕ → ℕ → ℕ → Type 0
IsWithin lo hi k = (lo ≤ k) × (k ≤ hi)

pub All-insert {ℓ κ} :
    {V : Type ℓ} (P : ℕ × V → Type κ) (k : ℕ) (v : V) (m : Dict V)
    → All P m
    → P (k, v)
    → All P (insert k v m)
All-insert P k v [] h p = (p, tt)
All-insert P k v ((j, w) ∷ m) h p = elim (Bool-cases (j == k)) [
  | inl e ↦ rw e (p, h.1)
  | inr e ↦ rw e (h.0, All-insert P k v m h.1 p)
]

pub has-insert {ℓ} :
    {V : Type ℓ} (k j : ℕ) (v : V) (m : Dict V)
    → has j (insert k v m) ≡ (if k == j then true else has j m)
has-insert k j v m = ground (arith, lookup-insert k j v m)

pub NoDup-insert {ℓ} : {V : Type ℓ} (k : ℕ) (v : V) (m : Dict V) → NoDup m → NoDup (insert k v m)
NoDup-insert k v [] h = (refl, tt)
NoDup-insert k v ((j, w) ∷ m) h = elim (Bool-cases (j == k)) [
  | inl e ↦ rw e (rw (← (==_iff j k).0 e) h.0, h.1)
  | inr e ↦ rw e (ground (arith, has-insert k j v m, h.0), NoDup-insert k v m h.1)
]

-- The keys of a map other than `k`.
abbrev pub without {ℓ} : {V : Type ℓ} → ℕ → Dict V → Dict V
without k [] = []
without k ((j, v) ∷ m) = if j == k then without k m else (j, v) ∷ without k m

has-without {ℓ} :
    {V : Type ℓ} (k j : ℕ) (m : Dict V) → has j m ≡ false → has j (without k m) ≡ false
has-without k j [] h = refl
has-without k j ((i, v) ∷ m) h = ground (arith, has-without k j m)

without_absent {ℓ} :
    {V : Type ℓ} (k : ℕ) (m : Dict V) → has k m ≡ false → length (without k m) ≡ length m
without_absent k [] h = refl
without_absent k ((i, v) ∷ m) h = ground (arith, without_absent k m)

length-without {ℓ} :
    {V : Type ℓ} (k : ℕ) (m : Dict V) → NoDup m → length m ≤ suc (length (without k m))
length-without k [] h = omega arith
length-without k ((i, v) ∷ m) h = elim (Bool-cases (i == k)) [
  | inl e ↦ rw e (ground (arith, without_absent k m, h.0))
  | inr e ↦ rw e (omega (arith, length-without k m h.1))
]

NoDup-without {ℓ} : {V : Type ℓ} (k : ℕ) (m : Dict V) → NoDup m → NoDup (without k m)
NoDup-without k [] h = tt
NoDup-without k ((i, v) ∷ m) h = elim (Bool-cases (i == k)) [
  | inl e ↦ rw e (NoDup-without k m h.1)
  | inr e ↦ rw e (has-without k i m h.0, NoDup-without k m h.1)
]

without_top {ℓ} :
    {V : Type ℓ} (lo n : ℕ) (m : Dict V)
    → All (λ e. (lo ≤ e.0) × (e.0 < lo + suc n)) m
    → All (λ e. (lo ≤ e.0) × (e.0 < lo + n)) (without (lo + n) m)
without_top lo n [] h = tt
without_top lo n ((i, v) ∷ m) h = elim (Bool-cases (i == (lo + n))) [
  | inl e ↦ rw e (without_top lo n m h.1)
  | inr e ↦ rw e (ground arith, without_top lo n m h.1)
]

-- `n` keys at most fit a range of `n` numbers.
pub pigeonhole {ℓ} :
    {V : Type ℓ} (lo n : ℕ) (m : Dict V)
    → NoDup m
    → All (λ e. (lo ≤ e.0) × (e.0 < lo + n)) m
    → length m ≤ n
pigeonhole lo zero [] d h = omega arith
pigeonhole lo zero ((i, v) ∷ m) d h = absurd (omega (arith, h.0))
pigeonhole lo (suc n) m d h = omega (
  arith,
  length-without (lo + n) m d,
  pigeonhole lo n (without (lo + n) m) (NoDup-without (lo + n) m d) (without_top lo n m h),
)

length-without-le {ℓ} : {V : Type ℓ} (k : ℕ) (m : Dict V) → length (without k m) ≤ length m
length-without-le k [] = omega arith
length-without-le k ((i, v) ∷ m) = ground (arith, length-without-le k m)

pub without_present {ℓ} :
    {V : Type ℓ} (k : ℕ) (m : Dict V) → has k m ≡ true → suc (length (without k m)) ≤ length m
without_present k [] h = cc
without_present k ((i, v) ∷ m) h = ground (arith, length-without-le k m, without_present k m)

has-without_ne {ℓ} : {V : Type ℓ} (k j : ℕ) (m : Dict V) → j ≢ k → has j (without k m) ≡ has j m
has-without_ne k j [] h = refl
has-without_ne k j ((i, v) ∷ m) h = ground (arith, has-without_ne k j m)

-- A map with a key for every number of a range has as many entries at least.
pub covers {ℓ} :
    {V : Type ℓ} (lo n : ℕ) (m : Dict V)
    → ((k : ℕ) → lo ≤ k → k < lo + n → has k m ≡ true)
    → n ≤ length m
covers lo zero m h = omega arith
covers lo (suc n) m h =
    let below : n ≤ length (without (lo + n) m) =
      covers lo n (without (lo + n) m)
        λ k p q. has-without_ne (lo + n) k m (omega arith) ∙ h k p (omega arith) in
    omega (arith, without_present (lo + n) m (h (lo + n) (omega arith) (omega arith)))
