-- ===== src/Wire/Ack/Ranges.antt =====
-- internal/wire/ack_frame.go: the ranges behind the first, written and read.
use x_fec.Base.{
  ℕ, zero, suc, ◌+◌, ◌-◌, ◌≤◌, ◌<◌, ◌≡◌, refl, ap, ◌∙◌, sym, List, [], ◌∷◌, ◌++◌, true, false, ltb,
  ok, arith, length, length-append, take,
}
use mathlib.Core.List.{append-nil, append_assoc}
use x_fec.Varint.{max_var_int8}
use x_fec.Varint.Codec.{encoding}
use x_fec.Wire.Codec.{append_varint-encoding, read_varint-encoding, len_varint-encoding}
use x_fec.Wire.Ack.{
  AckRange, difference, validate_each, validate_behind, parse_ranges, encode_gap, encode_length,
  append_ranges, length_ranges,
}

-- Ranges in descending order, with a gap in front of each, behind one that begins at `last`.
abbrev pub Linked : ℕ → List AckRange → Type 0
Linked last [] = Unit
Linked last (r ∷ rs) = (r.smallest ≤ r.largest) × (r.largest + 1 < last) × Linked r.smallest rs

pub Linked-validate :
    (last : ℕ) (rs : List AckRange)
    → validate_each rs ≡ true
    → validate_behind last rs ≡ true
    → Linked last rs
unfolding validate_each validate_behind
Linked-validate last [] e b = tt
Linked-validate last (r ∷ rs) e b =
    (ground arith, ground arith, Linked-validate r.smallest rs (ground arith) (ground arith))

pub validate-Linked :
    (last : ℕ) (rs : List AckRange)
    → Linked last rs
    → (validate_each rs ≡ true) × (validate_behind last rs ≡ true)
unfolding validate_each validate_behind
validate-Linked last [] h = (refl, refl)
validate-Linked last (r ∷ rs) (o, l, h) =
    let i = validate-Linked r.smallest rs h in (ground (arith, i.0), ground (arith, i.1))

pub take-Linked : (n last : ℕ) (rs : List AckRange) → Linked last rs → Linked last (take n rs)
take-Linked zero last rs h = tt
take-Linked (suc n) last [] h = tt
take-Linked (suc n) last (r ∷ rs) (o, l, h) = (o, l, take-Linked n r.smallest rs h)

gap_of :
    (last : ℕ) (r : AckRange)
    → r.largest + 1 < last
    → last ≤ max_var_int8
    → encode_gap last r ≡ last - r.largest - 2
unfolding encode_gap difference
gap_of last r h k = omega arith

pub length-of :
    (r : AckRange)
    → r.smallest ≤ r.largest
    → r.largest ≤ max_var_int8
    → encode_length r ≡ r.largest - r.smallest
unfolding encode_length difference
length-of r h k = omega arith

abbrev pub range_bytes : ℕ → AckRange → List ℕ
range_bytes last r = encoding (encode_gap last r) ++ encoding (encode_length r)

abbrev pub ranges_bytes : ℕ → List AckRange → List ℕ
ranges_bytes last [] = []
ranges_bytes last (r ∷ rs) =
    encoding (encode_gap last r) ++ (encoding (encode_length r) ++ ranges_bytes r.smallest rs)

-- Both numbers of a range have a varint.
pub fit :
    (last : ℕ) (r : AckRange)
    → r.smallest ≤ r.largest
    → r.largest + 1 < last
    → last ≤ max_var_int8
    → (encode_gap last r ≤ max_var_int8) × (encode_length r ≤ max_var_int8)
unfolding encode_gap encode_length difference
fit last r o l h = (omega arith, omega arith)

pub append_ranges-bytes :
    (b : List ℕ) (last : ℕ) (rs : List AckRange)
    → Linked last rs
    → last ≤ max_var_int8
    → append_ranges b last rs ≡ ok (b ++ ranges_bytes last rs)
unfolding append_ranges
append_ranges-bytes b last [] h k = ap ok (sym (append-nil b))
append_ranges-bytes b last (r ∷ rs) (o, l, h) k =
    let f = fit last r o l k in
    rw
      (
        append_varint-encoding b (encode_gap last r) (f.0),
        append_varint-encoding (b ++ encoding (encode_gap last r)) (encode_length r) (f.1),
      )
      (append_ranges-bytes ((b ++ encoding (encode_gap last r)) ++ encoding (encode_length r))
          r.smallest rs h (omega arith)
        ∙ ap ok (simp (append_assoc)))

pub parse_ranges-bytes :
    (last : ℕ) (rs : List AckRange) (rest : List ℕ)
    → Linked last rs
    → last ≤ max_var_int8
    → parse_ranges (length rs) last (ranges_bytes last rs ++ rest) ≡ ok (rs, rest)
unfolding parse_ranges
parse_ranges-bytes last [] rest h k = refl
parse_ranges-bytes last (r ∷ rs) rest (o, l, h) k =
    let f = fit last r o l k in
    let g = gap_of last r l k in
    let n = length-of r o (omega arith) in
    let a : ltb last (encode_gap last r + 2) ≡ false = ground arith in
    let lg : last - encode_gap last r - 2 ≡ r.largest = omega arith in
    let b : ltb r.largest (encode_length r) ≡ false = ground arith in
    let sm : r.largest - encode_length r ≡ r.smallest = omega arith in
    let ih = parse_ranges-bytes r.smallest rs rest h (omega arith) in
    simp (
      append_assoc,
      read_varint-encoding (encode_gap last r) _ (f.0),
      a,
      lg,
      read_varint-encoding (encode_length r) _ (f.1),
      b,
      sm,
      ih,
    )

pub length_ranges-bytes :
    (last : ℕ) (rs : List AckRange)
    → Linked last rs
    → last ≤ max_var_int8
    → length_ranges last rs ≡ ok (length (ranges_bytes last rs))
unfolding length_ranges
length_ranges-bytes last [] h k = refl
length_ranges-bytes last (r ∷ rs) (o, l, h) k =
    let f = fit last r o l k in
    rw
      (
        len_varint-encoding (encode_gap last r) (f.0),
        len_varint-encoding (encode_length r) (f.1),
        length_ranges-bytes r.smallest rs h (omega arith),
      )
      (simp (length-append) (ground arith))
