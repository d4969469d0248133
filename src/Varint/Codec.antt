-- ===== src/Varint/Codec.antt =====
-- `Read`, `Append` and `Len` together.
use x_fec.Base.{
  ℕ, ◌+◌, ◌*◌, ◌/◌, ◌%◌, ◌^◌, ◌<◌, ◌≤◌, List, [], ◌∷◌, ◌++◌, ok, leb, if◌then◌else◌, length, All,
  ◌≡◌, arith, inl, inr, Bool-cases, ◌∙◌,
}
use x_fec.Base.Bits.{top_two, low_six, or_0x40, or_0x80, or_0xc0}
use x_fec.Varint.{IsByte, read, append, len, max_var_int8, u8}

-- The encoding as plain arithmetic, by the width that `i` needs.
unfoldable pub encoding : ℕ → List ℕ
encoding i =
    if leb i 63
    then i ∷ []
    else if leb i 16383
    then (i / 256 + 64) ∷ i % 256 ∷ []
    else if leb i 1073741823
    then (i / 2 ^ 24 + 128) ∷ i / 2 ^ 16 % 256 ∷ i / 256 % 256 ∷ i % 256 ∷ []
    else (i / 2 ^ 56 + 192)
      ∷ i / 2 ^ 48 % 256
      ∷ i / 2 ^ 40 % 256
      ∷ i / 2 ^ 32 % 256
      ∷ i / 2 ^ 24 % 256
      ∷ i / 2 ^ 16 % 256
      ∷ i / 256 % 256
      ∷ i % 256
      ∷ []

-- `Append` writes the encoding behind what the slice holds.
pub append-encoding : (b : List ℕ) (i : ℕ) → i ≤ max_var_int8 → append b i ≡ ok (b ++ encoding i)
unfolding append encoding
append-encoding b i h =
    ground (arith, or_0x40 (u8 (i / 2 ^ 8)), or_0x80 (u8 (i / 2 ^ 24)), or_0xc0 (u8 (i / 2 ^ 56)))

pub len-encoding : (i : ℕ) → i ≤ max_var_int8 → len i ≡ ok (length (encoding i))
unfolding len encoding
len-encoding i h = ground arith

pub encoding-IsByte : (i : ℕ) → i ≤ max_var_int8 → All IsByte (encoding i)
unfolding encoding
encoding-IsByte i h = ground arith

-- The first byte of each width.
read_one : (f : ℕ) (r : List ℕ) → f < 64 → read (f ∷ r) ≡ ok (f, r)
unfolding read
read_one f r h = ground (arith, top_two f, low_six f)

pub read_two :
    (f b2 : ℕ) (r : List ℕ) → f < 64 → b2 < 256 → read ((f + 64) ∷ b2 ∷ r) ≡ ok (b2 + f * 256, r)
unfolding read
read_two f b2 r h k = ground (arith, top_two (f + 64), low_six (f + 64))

pub read_four :
    (f b2 b3 b4 : ℕ) (r : List ℕ)
    → f < 64
    → b2 < 256
    → b3 < 256
    → b4 < 256
    → read ((f + 128) ∷ b2 ∷ b3 ∷ b4 ∷ r) ≡ ok (b4 + b3 * 2 ^ 8 + b2 * 2 ^ 16 + f * 2 ^ 24, r)
unfolding read
read_four f b2 b3 b4 r h k l m = ground (arith, top_two (f + 128), low_six (f + 128))

pub read_eight :
    (f b2 b3 b4 b5 b6 b7 b8 : ℕ) (r : List ℕ)
    → f < 64
    → b2 < 256
    → b3 < 256
    → b4 < 256
    → b5 < 256
    → b6 < 256
    → b7 < 256
    → b8 < 256
    → read ((f + 192) ∷ b2 ∷ b3 ∷ b4 ∷ b5 ∷ b6 ∷ b7 ∷ b8 ∷ r)
      ≡ ok (
        b8
            + b7 * 2 ^ 8
            + b6 * 2 ^ 16
            + b5 * 2 ^ 24
            + b4 * 2 ^ 32
            + b3 * 2 ^ 40
            + b2 * 2 ^ 48
            + f * 2 ^ 56,
        r,
      )
unfolding read
read_eight f b2 b3 b4 b5 b6 b7 b8 r h1 h2 h3 h4 h5 h6 h7 h8 =
    ground (arith, top_two (f + 192), low_six (f + 192))

-- The digits to base 256 add up to the number.
digits_four :
    (i : ℕ) → i % 256 + i / 256 % 256 * 2 ^ 8 + i / 2 ^ 16 % 256 * 2 ^ 16 + i / 2 ^ 24 * 2 ^ 24 ≡ i
digits_four i = omega arith

digits_eight :
    (i : ℕ)
    → i % 256
        + i / 256 % 256 * 2 ^ 8
        + i / 2 ^ 16 % 256 * 2 ^ 16
        + i / 2 ^ 24 % 256 * 2 ^ 24
        + i / 2 ^ 32 % 256 * 2 ^ 32
        + i / 2 ^ 40 % 256 * 2 ^ 40
        + i / 2 ^ 48 % 256 * 2 ^ 48
        + i / 2 ^ 56 * 2 ^ 56
      ≡ i
digits_eight i = omega arith

-- `Read` gives the number back and leaves what follows it.
pub read-encoding :
    (i : ℕ) (rest : List ℕ) → i ≤ max_var_int8 → read (encoding i ++ rest) ≡ ok (i, rest)
unfolding encoding
read-encoding i rest h = elim (Bool-cases (leb i 63)) [
  | inl p ↦ rw p (read_one i rest (ground arith))
  | inr p ↦ rw p (elim (Bool-cases (leb i 16383)) [
    | inl q ↦ rw q (read_two (i / 256) (i % 256) rest (ground arith) (omega arith) ∙ ground arith)
    | inr q ↦ rw q (elim (Bool-cases (leb i 1073741823)) [
      | inl t ↦ rw t (
          read_four (i / 2 ^ 24) _ _ _ rest (ground arith) (omega arith) (omega arith) (omega arith)
          ∙ rw digits_four)
      | inr t ↦ rw t (
          read_eight (i / 2 ^ 56) _ _ _ _ _ _ _ rest (omega arith) (omega arith) (omega arith)
            (omega arith) (omega arith) (omega arith) (omega arith) (omega arith)
          ∙ rw digits_eight)
    ])
  ])
]

-- `Append` writes an encoding of as many bytes as `Len` says, and `Read` gives the number back from
-- it, whatever follows.
pub read-append :
    (b rest : List ℕ) (i : ℕ)
    → i ≤ max_var_int8
    → (e : List ℕ) × (append b i ≡ ok (b ++ e))
      × (len i ≡ ok (length e))
      × (read (e ++ rest) ≡ ok (i, rest))
read-append b rest i h =
    (encoding i, append-encoding b i h, len-encoding i h, read-encoding i rest h)
