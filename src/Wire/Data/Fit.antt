-- ===== src/Wire/Data/Fit.antt =====
-- `MaxDataLen`: how much data fits beside the header of a frame.
use x_fec.Base.{
  ℕ, ◌+◌, ◌-◌, ◌≤◌, ◌<◌, ◌≡◌, Bool, true, false, ok, if◌then◌else◌, leb, refl, arith, Bool-cases,
  leb→le, ◌⊎◌, inl, inr,
}
use x_fec.Wire.{len_varint}
use x_fec.Wire.Data.{fit_data}

-- The bytes of a length of at most 16383.
abbrev pub size_of_length : Bool → ℕ → ℕ
size_of_length d k = if d then (if leb k 63 then 1 else 2) else 0

pub len_varint_small : (k : ℕ) → k ≤ 16383 → len_varint k ≡ ok (size_of_length true k)
unfolding x_fec.Varint.len
len_varint_small k h = ground arith

-- What `MaxDataLen` promises of the answer `n` for a header of `h` bytes: a length of data that does
-- not fit is at least `n`, and data of length `n` fits.
abbrev pub Fits : Bool → ℕ → ℕ → ℕ → Type 0
Fits d h max_size n =
    (n ≤ 16383)
    × ((c lc : ℕ) → (c ≤ 16383 → lc ≡ size_of_length d c) → max_size < h + lc + c → n ≤ c)
    × (1 ≤ n → h + size_of_length d n + n ≤ max_size)

size_of_length_mono : (d : Bool) (c n : ℕ) → c ≤ n → size_of_length d c ≤ size_of_length d n
size_of_length_mono true c n h = ground arith
size_of_length_mono false c n h = ground arith

le_or_lt : (m n : ℕ) → (m ≤ n) ⊎ (n < m)
le_or_lt m n = elim (Bool-cases (leb m n)) [
  | inl e ↦ inl (leb→le m n e)
  | inr e ↦ inr (ground arith)
]

-- An answer that fits, if it is zero or its data fits.
Fits-of :
    (d : Bool) (h max_size n : ℕ)
    → n ≤ 16383
    → (n ≡ 0) ⊎ (h + size_of_length d n + n ≤ max_size)
    → Fits d h max_size n
Fits-of d h m n hn (inl e) = (hn, λ c lc s g. omega arith, λ g. absurd (omega arith))
Fits-of d h m n hn (inr e) = (
  hn,
  λ c lc s g. elim (le_or_lt n c) [
    | inl q ↦ q
    | inr q ↦
        let k = s (omega arith) in
        let mono = size_of_length_mono d c n (omega arith) in absurd (omega arith)
  ],
  λ g. e,
)

-- For a header of `h` bytes and a limit of at most 16383 bytes, `MaxDataLen` answers a length of data
-- that, if it is not 0, fits behind the header. Data that does not fit there is at least as long as
-- the answer.
pub fit_data_lem :
    (d : Bool) (h max_size : ℕ)
    → max_size ≤ 16383
    → (n : ℕ) × (fit_data d (h + (if d then 1 else 0)) max_size ≡ ok n) × Fits d h max_size n
unfolding fit_data
fit_data_lem true h m hm = elim (le_or_lt (h + 1) m) [
  | inr q ↦ (0, ground arith, Fits-of true h m 0 (omega arith) (inl refl))
  | inl q ↦ elim (le_or_lt (m - (h + 1)) 63) [
    | inl r ↦ (
      m - (h + 1),
      simp (len_varint_small (m - (h + 1)) (omega arith)) (ground arith),
      Fits-of true h m (m - (h + 1)) (omega arith) (inr (ground arith)),
    )
    | inr r ↦ (
      m - (h + 1) - 1,
      simp (len_varint_small (m - (h + 1)) (omega arith)) (ground arith),
      Fits-of true h m (m - (h + 1) - 1) (omega arith) (inr (ground arith)),
    )
  ]
]
fit_data_lem false h m hm = elim (le_or_lt h m) [
  | inr q ↦ (0, ground arith, Fits-of false h m 0 (omega arith) (inl refl))
  | inl q ↦ (m - h, ground arith, Fits-of false h m (m - h) (omega arith) (inr (ground arith)))
]
