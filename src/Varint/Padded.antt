-- ===== src/Varint/Padded.antt =====
-- `AppendWithLen`, and `Read` on any bytes.
use x_fec.Base.{
  ℕ, zero, suc, ◌+◌, ◌-◌, ◌*◌, ◌/◌, ◌^◌, ◌<◌, ◌≤◌, List, [], ◌∷◌, ◌++◌, ok, err, ltb, ◌==◌, length,
  All, if◌then◌else◌, replicate, not, ◌&&◌, ◌≡◌, refl, arith, ◌⊎◌, inl, inr, sym, ap, ◌∙◌,
}
use x_fec.Base.Bits.{top_two, low_six}
use x_fec.Varint.{
  cannot_encode, IsByte, read, append, len, append_with_len, max_var_int8, u8, big_endian, marker,
  invalid_length,
}
use x_fec.Varint.Codec.{
  read_two, read_four, read_eight, encoding, append-encoding, len-encoding, read-encoding,
}
use mathlib.Core.List.{append_assoc, append-nil}

-- `AppendWithLen` wrote `n` bytes behind `b`, and `Read` gives `i` back from them.
abbrev pub Widened : List ℕ → List ℕ → ℕ → ℕ → Type 0
Widened b rest i n =
    (e : List ℕ) × (append_with_len b i n ≡ ok (b ++ e))
    × (length e ≡ n)
    × (read (e ++ rest) ≡ ok (i, rest))

len_one : (i : ℕ) → i ≤ 63 → len i ≡ ok 1
unfolding len
len_one i h = ground arith

len_two : (i : ℕ) → 63 < i → i ≤ 16383 → len i ≡ ok 2
unfolding len
len_two i h k = ground arith

len_four : (i : ℕ) → 16383 < i → i ≤ 1073741823 → len i ≡ ok 4
unfolding len
len_four i h k = ground arith

len_eight : (i : ℕ) → 1073741823 < i → i ≤ max_var_int8 → len i ≡ ok 8
unfolding len
len_eight i h k = ground arith

abbrev pub IsWidth : ℕ → Type 0
IsWidth n = (n ≡ 1) ⊎ (n ≡ 2) ⊎ (n ≡ 4) ⊎ (n ≡ 8)

big_endian-append : (k i : ℕ) (b : List ℕ) → big_endian k i b ≡ b ++ big_endian k i []
unfolding big_endian
big_endian-append zero i b = sym (append-nil b)
big_endian-append (suc k) i b =
    let d = u8 (i / 2 ^ (8 * k)) ∷ [] in
    big_endian-append k i (b ++ d)
    ∙ append_assoc b d (big_endian k i [])
    ∙ ap (λ t. b ++ t) (sym (big_endian-append k i d))

-- The bytes of the wider form.
abbrev padded : ℕ → ℕ → ℕ → List ℕ
padded l i n = marker n ∷ replicate (n - l - 1) 0 ++ big_endian l i []

writes_padded :
    (b : List ℕ) (i l n : ℕ)
    → len i ≡ ok l
    → l < n
    → IsWidth n
    → append_with_len b i n ≡ ok (b ++ padded l i n)
unfolding append_with_len
writes_padded b i l n e lt w = rw e (branches ∙ ap ok placed)
  where
    branches :
        (if not (n == 1) && not (n == 2) && not (n == 4) && not (n == 8)
          then err invalid_length
          else if l == n
          then append b i
          else if ltb n l
          then err cannot_encode
          else ok (big_endian l i ((b ++ marker n ∷ []) ++ replicate (n - l - 1) 0)))
        ≡ ok (big_endian l i ((b ++ marker n ∷ []) ++ replicate (n - l - 1) 0))
    branches = ground arith

    placed : big_endian l i ((b ++ marker n ∷ []) ++ replicate (n - l - 1) 0) ≡ b ++ padded l i n
    placed = big_endian-append l i _ ∙ simp append_assoc

module _ (b rest : List ℕ) (i : ℕ) where
  same_width : (n : ℕ) → i ≤ max_var_int8 → len i ≡ ok n → IsWidth n → Widened b rest i n
  same_width n fits l w = (
    encoding i,
    unfold append_with_len in rw l (ground (arith, append-encoding b i fits)),
    ground (arith, len-encoding i fits),
    read-encoding i rest fits,
  )

  widened :
      (l n : ℕ)
      → len i ≡ ok l
      → l < n
      → IsWidth n
      → length (padded l i n) ≡ n
      → read (padded l i n ++ rest) ≡ ok (i, rest)
      → Widened b rest i n
  widened l n e lt w size reads = (padded l i n, writes_padded b i l n e lt w, size, reads)

  one_in_two : i ≤ 63 → Widened b rest i 2
  unfolding append_with_len
  one_in_two h =
      widened 1 2 (len_one i h) (omega arith) (omega arith) refl
        (read_two 0 (u8 (i / 1)) rest (omega arith) (omega arith) ∙ ground arith)

  one_in_four : i ≤ 63 → Widened b rest i 4
  unfolding append_with_len
  one_in_four h = widened 1 4 (len_one i h) (omega arith) (omega arith) refl (
      read_four 0 0 0 (u8 (i / 1)) rest (omega arith) (omega arith) (omega arith) (omega arith)
      ∙ ground arith)

  one_in_eight : i ≤ 63 → Widened b rest i 8
  unfolding append_with_len
  one_in_eight h = widened 1 8 (len_one i h) (omega arith) (omega arith) refl (
      read_eight 0 0 0 0 0 0 0 (u8 (i / 1)) rest (omega arith) (omega arith) (omega arith)
        (omega arith) (omega arith) (omega arith) (omega arith) (omega arith)
      ∙ ground arith)

  two_in_four : 63 < i → i ≤ 16383 → Widened b rest i 4
  unfolding append_with_len
  two_in_four g h = widened 2 4 (len_two i g h) (omega arith) (omega arith) refl (
      read_four 0 0 (u8 (i / 2 ^ 8)) (u8 (i / 1)) rest (omega arith) (omega arith) (omega arith)
        (omega arith)
      ∙ ground arith)

  two_in_eight : 63 < i → i ≤ 16383 → Widened b rest i 8
  unfolding append_with_len
  two_in_eight g h = widened 2 8 (len_two i g h) (omega arith) (omega arith) refl (
      read_eight 0 0 0 0 0 0 (u8 (i / 2 ^ 8)) (u8 (i / 1)) rest (omega arith) (omega arith)
        (omega arith) (omega arith) (omega arith) (omega arith) (omega arith) (omega arith)
      ∙ ground arith)

  four_in_eight : 16383 < i → i ≤ 1073741823 → Widened b rest i 8
  unfolding append_with_len
  four_in_eight g h = widened 4 8 (len_four i g h) (omega arith) (omega arith) refl (
      read_eight 0 0 0 0 (u8 (i / 2 ^ 24)) (u8 (i / 2 ^ 16)) (u8 (i / 2 ^ 8)) (u8 (i / 1)) rest
        (omega arith) (omega arith) (omega arith) (omega arith) (omega arith) (omega arith)
        (omega arith) (omega arith)
      ∙ ground arith)

-- The width of a number, with the range that it stands for.
pub len_ranges :
    (i l : ℕ)
    → len i ≡ ok l
    → (i ≤ max_var_int8)
      × (((l ≡ 1) × (i ≤ 63))
          ⊎ ((l ≡ 2) × (63 < i) × (i ≤ 16383))
          ⊎ ((l ≡ 4) × (16383 < i) × (i ≤ 1073741823))
          ⊎ ((l ≡ 8) × (1073741823 < i)))
unfolding len
len_ranges i l e = ground arith

-- For a width of 1, 2, 4 or 8 that is at least the number's own, `AppendWithLen` writes exactly that
-- many bytes behind the slice, and `Read` gives the number back from them, whatever follows.
pub append_with_len-Widened :
    (b rest : List ℕ) (i l n : ℕ) → len i ≡ ok l → l ≤ n → IsWidth n → Widened b rest i n
append_with_len-Widened b rest i l n e le w =
    let (fits, by_width) = len_ranges i l e in
    elim by_width [
      | inl (p, h) ↦ elim w [
        | inl q ↦ same_width b rest i n fits (rw (q, ← p) e) (omega arith)
        | inr (inl q) ↦ rw q (one_in_two b rest i h)
        | inr (inr (inl q)) ↦ rw q (one_in_four b rest i h)
        | inr (inr (inr q)) ↦ rw q (one_in_eight b rest i h)
      ]
      | inr (inl (p, g, h)) ↦ elim w [
        | inl q ↦ absurd (omega arith)
        | inr (inl q) ↦ same_width b rest i n fits (rw (q, ← p) e) (omega arith)
        | inr (inr (inl q)) ↦ rw q (two_in_four b rest i g h)
        | inr (inr (inr q)) ↦ rw q (two_in_eight b rest i g h)
      ]
      | inr (inr (inl (p, g, h))) ↦ elim w [
        | inl q ↦ absurd (omega arith)
        | inr (inl q) ↦ absurd (omega arith)
        | inr (inr (inl q)) ↦ same_width b rest i n fits (rw (q, ← p) e) (omega arith)
        | inr (inr (inr q)) ↦ rw q (four_in_eight b rest i g h)
      ]
      | inr (inr (inr (p, g))) ↦ elim w [
        | inl q ↦ absurd (omega arith)
        | inr (inl q) ↦ absurd (omega arith)
        | inr (inr (inl q)) ↦ absurd (omega arith)
        | inr (inr (inr q)) ↦ same_width b rest i n fits (rw (q, ← p) e) (omega arith)
      ]
    ]

-- `Read` on bytes gives at most the greatest varint, and takes between 1 and 8 of them.
pub read_bounds :
    (src rest : List ℕ) (v : ℕ)
    → All IsByte src
    → read src ≡ ok (v, rest)
    → (v ≤ max_var_int8) × (length rest < length src) × (length src ≤ length rest + 8)
unfolding read
read_bounds [] rest v bytes e = cc
read_bounds (f ∷ r) rest v bytes e = ground (arith, top_two f, low_six f)
