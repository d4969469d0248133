-- ===== src/Wire/Data/Split.antt =====
-- internal/wire/crypto_frame.go: MaybeSplitOffFrame.
use x_fec.Base.{
  ℕ, ◌+◌, ◌≤◌, ◌<◌, ◌≡◌, ◌++◌, true, false, ok, leb, ltb, refl, arith, ◌⊎◌, inl, inr, none, some,
  length, take, drop, Bool-cases, ◌==◌, length-take, take-append-drop, leb→le, ap, sym, subst,
}
use x_fec.Varint.{max_var_int8}
use x_fec.Varint.Codec.{encoding}
use x_fec.Wire.{len_varint}
use x_fec.Wire.Codec.{len_varint-encoding}
use x_fec.Wire.Data.{
  CryptoFrame, length_crypto_frame, max_data_len_crypto, maybe_split_off_crypto, fit_data,
}
use x_fec.Wire.Data.Fit.{size_of_length, len_varint_small, Fits, fit_data_lem}

-- `g` is the front of `f` and `r` the rest: the data is cut, and the offset goes on behind the cut.
abbrev pub IsSplit : CryptoFrame → CryptoFrame → CryptoFrame → Type 0
IsSplit f g r =
    (1 ≤ length g.contents)
    × (g.contents ++ r.contents ≡ f.contents)
    × (g.offset ≡ f.offset)
    × (r.offset ≡ f.offset + length g.contents)

abbrev pub IsOutcome : CryptoFrame → ℕ → ℕ → Type 0
IsOutcome f max_size l =
    ((l ≤ max_size) × (maybe_split_off_crypto f max_size ≡ ok (none, false, f)))
    ⊎ ((max_size < l) × (maybe_split_off_crypto f max_size ≡ ok (none, true, f)))
    ⊎ ((max_size < l)
        × (g : CryptoFrame) × (r : CryptoFrame) × (maybe_split_off_crypto f max_size
            ≡ ok (some g, true, r))
        × IsSplit f g r
        × (k : ℕ) × (length_crypto_frame g ≡ ok k)
        × (k ≤ max_size))

module _ (f : CryptoFrame) (m o n lc : ℕ) (eo : len_varint f.offset ≡ ok o)
    (el : len_varint (length f.contents) ≡ ok lc)
    (small : length f.contents ≤ 16383 → lc ≡ size_of_length true (length f.contents))
    (en : fit_data true (1 + o + 1) m ≡ ok n) (fits : Fits true (1 + o) m n) where
  length-whole : length_crypto_frame f ≡ ok (1 + o + lc + length f.contents)
  unfolding length_crypto_frame
  length-whole = simp (eo, el)

  room : max_data_len_crypto f m ≡ ok n
  unfolding max_data_len_crypto
  room = simp eo en

  front : CryptoFrame
  front = record { offset = f.offset; contents = take n f.contents }

  cut : (m < 1 + o + lc + length f.contents) → length (take n f.contents) ≡ n
  cut over = ground (arith, length-take n f.contents, fits.1 (length f.contents) lc small over)

  length-of_front :
      length (take n f.contents) ≡ n
      → length_crypto_frame front ≡ ok (1 + o + size_of_length true n + n)
  unfolding length_crypto_frame front
  length-of_front e =
      subst
        (λ k.
          len_varint (length (take n f.contents)) ≡ ok (size_of_length true n)
          → (len_varint f.offset ≡ ok o)
          → length_crypto_frame (record { offset = f.offset; contents = take n f.contents })
            ≡ ok (1 + o + size_of_length true n + k))
        e (λ p q. simp (p, q)) (rw e (len_varint_small n fits.0)) eo

  outcome : IsOutcome f m (1 + o + lc + length f.contents)
  unfolding maybe_split_off_crypto front
  outcome = elim (Bool-cases (leb (1 + o + lc + length f.contents) m)) [
    | inl e ↦ inl (leb→le (1 + o + lc + length f.contents) m e, simp (length-whole, e))
    | inr e ↦ elim (Bool-cases (n == 0)) [
      | inl z ↦ inr (inl (ground arith, simp (length-whole, e, room, z)))
      | inr z ↦
          let over : m < 1 + o + lc + length f.contents = ground arith in
          let c = cut over in
          let inside : ltb (length f.contents) n ≡ false =
            ground (arith, fits.1 (length f.contents) lc small over) in
          inr (
            inr (
              over,
              front,
              record { offset = f.offset + n; contents = drop n f.contents },
              simp (length-whole, e, room, z, inside),
              (
                rw c (ground arith),
                take-append-drop n f.contents,
                refl,
                ap (λ k. f.offset + k) (sym c),
              ),
              1 + o + size_of_length true n + n,
              length-of_front c,
              fits.2 (ground arith),
            ))
    ]
  ]

small_size : (c lc : ℕ) → len_varint c ≡ ok lc → c ≤ 16383 → lc ≡ size_of_length true c
small_size c lc e h = ground (arith, len_varint_small c h, e)

-- For a CRYPTO frame whose offset and length a varint can hold, and a limit of at most 16383 bytes: a
-- frame that fits is left whole; one that does not is left whole, with the answer that splitting is
-- required, or split in a front that fits and a rest.
pub maybe_split_off_crypto_lem :
    (f : CryptoFrame) (max_size : ℕ)
    → f.offset ≤ max_var_int8
    → length f.contents ≤ max_var_int8
    → max_size ≤ 16383
    → (l : ℕ) × (length_crypto_frame f ≡ ok l) × IsOutcome f max_size l
maybe_split_off_crypto_lem f m ho hl hm =
    let o = length (encoding f.offset) in
    let lc = length (encoding (length f.contents)) in
    let eo = len_varint-encoding f.offset ho in
    let el = len_varint-encoding (length f.contents) hl in
    let (n, en, fits) = fit_data_lem true (1 + o) m hm in
    let small = small_size (length f.contents) lc el in
    (
      1 + o + lc + length f.contents,
      length-whole f m o n lc eo el small en fits,
      outcome f m o n lc eo el small en fits,
    )
