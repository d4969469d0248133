-- ===== src/Wire/Ack/RoundTrip.antt =====
-- internal/wire/ack_frame.go: parsing against Append and Length.
use x_fec.Base.{
  ℕ, suc, ◌+◌, ◌-◌, ◌*◌, ◌/◌, ◌≤◌, ◌≡◌, refl, ap, ◌∙◌, sym, subst, List, [], ◌∷◌, ◌++◌, true, false,
  ltb, ◌==◌, ok, arith, length, length-append, length-take, take, inl, inr, Bool-cases,
  if◌then◌else◌,
}
use mathlib.Core.List.{append-nil, append_assoc}
use x_fec.Varint.{max_var_int8}
use x_fec.Varint.Codec.{encoding}
use x_fec.Wire.{len_varint, append_varint, read_varint}
use x_fec.Wire.Codec.{append_varint-encoding, read_varint-encoding, len_varint-encoding}
use x_fec.Wire.Ack.{
  AckRange, AckFrame, max_ack_frame_size, inf_duration, encode_gap, encode_length, encode_ack_delay,
  decode_ack_delay, count_encodable, num_encodable_ack_ranges, has_ecn, append_counts,
  length_counts, parse_ranges, parse_counts, parse_ack_frame, append_ack_frame, length_ack_frame,
  reset_ack_frame, behind, front, difference, validate_ack_ranges, set_counts,
}
use x_fec.Wire.Ack.Ranges.{
  Linked, Linked-validate, validate-Linked, take-Linked, length-of, ranges_bytes,
  append_ranges-bytes, parse_ranges-bytes, length_ranges-bytes,
}
use x_fec.Wire.Ack.Size.{length-encoding, Encodable, count_encodable_lem}

abbrev pub largest_of : List AckRange → ℕ
largest_of [] = 0
largest_of (r ∷ rs) = r.largest

-- A frame that can be written: valid ranges, and numbers of which each has a varint or fits an `int64`.
pub record IsValid (f : AckFrame) : Type 0 where
  pub valid_ranges : validate_ack_ranges f.ack_ranges ≡ true
  pub number : largest_of f.ack_ranges ≤ max_var_int8
  pub delay : f.delay_time ≤ inf_duration
  pub counts : (f.ect0 ≤ max_var_int8) × (f.ect1 ≤ max_var_int8) × (f.ecnce ≤ max_var_int8)

abbrev count_bytes : AckFrame → List ℕ
count_bytes f = if has_ecn f then encoding f.ect0 ++ (encoding f.ect1 ++ encoding f.ecnce) else []

append_counts-bytes :
    (b : List ℕ) (f : AckFrame)
    → IsValid f
    → append_counts (has_ecn f) b f ≡ ok (b ++ count_bytes f)
unfolding append_counts
append_counts-bytes b f v = elim (Bool-cases (has_ecn f)) [
  | inl e ↦
      rw
        (
          e,
          append_varint-encoding b f.ect0 (v.counts.0),
          append_varint-encoding (b ++ encoding f.ect0) f.ect1 (v.counts.1),
        )
        (append_varint-encoding ((b ++ encoding f.ect0) ++ encoding f.ect1) f.ecnce (v.counts.2)
          ∙ ap ok (simp (append_assoc)))
  | inr e ↦ rw e (ap ok (sym (append-nil b)))
]

length_counts-bytes :
    (f : AckFrame) → IsValid f → length_counts (has_ecn f) f ≡ ok (length (count_bytes f))
unfolding length_counts
length_counts-bytes f v = elim (Bool-cases (has_ecn f)) [
  | inl e ↦
      rw
        (
          e,
          len_varint-encoding f.ect0 (v.counts.0),
          len_varint-encoding f.ect1 (v.counts.1),
          len_varint-encoding f.ecnce (v.counts.2),
        )
        (simp (length-append) (ground arith))
  | inr e ↦ rw e refl
]

parse_counts-bytes :
    (f g : AckFrame) (rest : List ℕ)
    → IsValid f
    → g.ect0 ≡ 0
    → g.ect1 ≡ 0
    → g.ecnce ≡ 0
    → parse_counts (has_ecn f) g (count_bytes f ++ rest)
      ≡ ok (set_counts g f.ect0 f.ect1 f.ecnce, rest)
unfolding parse_counts
parse_counts-bytes f g rest v a b c = elim (Bool-cases (has_ecn f)) [
  | inl e ↦ rw e (
      simp (
        append_assoc,
        read_varint-encoding f.ect0 _ (v.counts.0),
        read_varint-encoding f.ect1 _ (v.counts.1),
        read_varint-encoding f.ecnce _ (v.counts.2),
      ))
  | inr e ↦ rw e (unfold has_ecn in ground arith)
]

decode-encode_ack_delay :
    (delay : ℕ)
    → delay ≤ inf_duration
    → (decode_ack_delay (encode_ack_delay delay) 3 ≡ delay / 8000 * 8000)
      × (encode_ack_delay delay ≤ max_var_int8)
unfolding decode_ack_delay encode_ack_delay
decode-encode_ack_delay delay h = (ground arith, omega arith)

length-count_bytes : (f : AckFrame) → length (count_bytes f) ≤ 24
length-count_bytes f = elim (Bool-cases (has_ecn f)) [
  | inl e ↦ rw e (
      omega (
        arith,
        length-append (encoding f.ect0) (encoding f.ect1 ++ encoding f.ecnce),
        length-append (encoding f.ect1) (encoding f.ecnce),
        length-encoding f.ect0,
        length-encoding f.ect1,
        length-encoding f.ecnce,
      ))
  | inr e ↦ rw e (omega arith)
]

-- A count below a thousand has at most two bytes.
short_count : (n : ℕ) → n ≤ 1000 → length (encoding n) ≤ 2
unfolding encoding
short_count n h = ground arith

-- What is written behind the type byte, with `n` ranges.
abbrev body : AckFrame → AckRange → List AckRange → ℕ → List ℕ
body f first rs n =
    encoding first.largest
    ++ (encoding (encode_ack_delay f.delay_time)
        ++ (encoding (n - 1)
            ++ (encoding (encode_length first)
                ++ (ranges_bytes first.smallest (take (n - 1) rs) ++ count_bytes f))))

abbrev pub ack_type : AckFrame → ℕ
ack_type f = if has_ecn f then 0x3 else 0x2

-- What arrives: the first `n` ranges, and the delay in whole units of eight microseconds.
abbrev pub arriving : AckFrame → ℕ → AckFrame
arriving f n = record f {
  ack_ranges = take n f.ack_ranges;
  delay_time = f.delay_time / 8000 * 8000;
}

pub record Written (f : AckFrame) (b : List ℕ) (rest : List ℕ) (n : ℕ) : Type 0 where
  pub contents : List ℕ
  pub encodable : num_encodable_ack_ranges f ≡ ok n
  pub not_none : 1 ≤ n
  pub at_most_all : n ≤ length f.ack_ranges
  pub appended : append_ack_frame b f ≡ ok (b ++ (ack_type f ∷ contents))
  pub measured : length_ack_frame f ≡ ok (length (ack_type f ∷ contents))
  pub bounded : length (ack_type f ∷ contents) ≤ max_ack_frame_size + 32
  pub read_back :
      parse_ack_frame (reset_ack_frame f) (contents ++ rest) (ack_type f) 3
      ≡ ok (arriving f n, rest)

pub first_valid :
    (r : AckRange) (rs : List AckRange)
    → validate_ack_ranges (r ∷ rs) ≡ true
    → (r.smallest ≤ r.largest) × Linked r.smallest rs
unfolding validate_ack_ranges
first_valid r rs h = (
  unfold x_fec.Wire.Ack.validate_each in ground arith,
  Linked-validate r.smallest rs (unfold x_fec.Wire.Ack.validate_each in ground arith)
      (ground arith),
)

abbrev framed : AckRange → List AckRange → ℕ → ℕ → ℕ → ℕ → AckFrame
framed first rs delay a0 a1 ce = record {
  ack_ranges = first ∷ rs;
  delay_time = delay;
  ect0 = a0;
  ect1 = a1;
  ecnce = ce;
}

module _ (first : AckRange) (rs : List AckRange) (delay a0 a1 ce : ℕ)
    (v : IsValid (framed first rs delay a0 a1 ce)) (o : first.smallest ≤ first.largest)
    (h : Linked first.smallest rs) (n : ℕ) (p : 1 ≤ n) (q : n ≤ max_ack_frame_size)
    (c : num_encodable_ack_ranges (framed first rs delay a0 a1 ce) ≡ ok n) where
  abbrev f : AckFrame
  f = framed first rs delay a0 a1 ce

  one_less : (difference n 1 ≡ n - 1) × (n - 1 ≤ max_var_int8)
  unfolding difference
  one_less = (omega arith, omega arith)

  length_fits : encode_length first ≤ max_var_int8
  length_fits = omega (arith, length-of first o v.number, v.number)

  appended-body : (b : List ℕ) → append_ack_frame b f ≡ ok (b ++ (ack_type f ∷ body f first rs n))
  unfolding append_ack_frame
  appended-body b =
      let d = decode-encode_ack_delay delay v.delay in
      simp (
        append_varint-encoding _ first.largest v.number,
        append_varint-encoding _ (encode_ack_delay delay) (d.1),
        c,
        one_less.0,
        append_varint-encoding _ (n - 1) (one_less.1),
        append_varint-encoding _ (encode_length first) length_fits,
        append_ranges-bytes _ first.smallest (take (n - 1) rs)
            (take-Linked (n - 1) first.smallest rs h) (omega (arith, o, v.number)),
        append_counts-bytes _ f v,
        append_assoc,
      )

  measured-body : length_ack_frame f ≡ ok (length (ack_type f ∷ body f first rs n))
  unfolding length_ack_frame
  measured-body =
      let d = decode-encode_ack_delay delay v.delay in
      simp
        (
          len_varint-encoding first.largest v.number,
          len_varint-encoding (encode_ack_delay delay) (d.1),
          c,
          one_less.0,
          len_varint-encoding (n - 1) (one_less.1),
          len_varint-encoding (encode_length first) length_fits,
          length_ranges-bytes first.smallest (take (n - 1) rs)
              (take-Linked (n - 1) first.smallest rs h) (omega (arith, o, v.number)),
          length_counts-bytes f v,
          length-append,
        )
        (ground arith)

  taken : take n (first ∷ rs) ≡ first ∷ take (n - 1) rs
  taken = let e : n ≡ suc (n - 1) = omega arith in ap (λ m. take m (first ∷ rs)) e

  taken_valid : validate_ack_ranges (first ∷ take (n - 1) rs) ≡ true
  unfolding validate_ack_ranges x_fec.Wire.Ack.validate_each
  taken_valid =
      let w =
        validate-Linked first.smallest (take (n - 1) rs)
          (take-Linked (n - 1) first.smallest rs h) in
      ground (arith, w.0, w.1)

  read-body :
      (rest : List ℕ)
      → n ≤ length (first ∷ rs)
      → parse_ack_frame (reset_ack_frame f) (body f first rs n ++ rest) (ack_type f) 3
        ≡ ok (arriving f n, rest)
  unfolding parse_ack_frame reset_ack_frame
  read-body rest m =
      let d = decode-encode_ack_delay delay v.delay in
      let bl : ltb first.largest (encode_length first) ≡ false =
        ground (arith, length-of first o v.number) in
      let sm : first.largest - encode_length first ≡ first.smallest =
        omega (arith, length-of first o v.number) in
      let ln : length (take (n - 1) rs) ≡ n - 1 = omega (arith, length-take (n - 1) rs) in
      let ty : (ack_type f == 3) ≡ has_ecn f = ground arith in
      let pr : parse_ranges (n - 1) first.smallest
            (ranges_bytes first.smallest (take (n - 1) rs) ++ (count_bytes f ++ rest))
          ≡ ok (take (n - 1) rs, count_bytes f ++ rest) =
        subst
          (λ m.
            parse_ranges m first.smallest
              (ranges_bytes first.smallest (take (n - 1) rs) ++ (count_bytes f ++ rest))
            ≡ ok (take (n - 1) rs, count_bytes f ++ rest))
          ln
          (parse_ranges-bytes first.smallest (take (n - 1) rs) (count_bytes f ++ rest)
            (take-Linked (n - 1) first.smallest rs h) (omega (arith, o, v.number))) in
      let g : AckFrame = record {
        ack_ranges = first ∷ take (n - 1) rs;
        delay_time = delay / 8000 * 8000;
        ect0 = 0;
        ect1 = 0;
        ecnce = 0;
      } in
      let pc = parse_counts-bytes f g rest v refl refl refl in
      simp
        (
          append_assoc,
          read_varint-encoding first.largest _ v.number,
          read_varint-encoding (encode_ack_delay delay) _ (d.1),
          read_varint-encoding (n - 1) _ (one_less.1),
          read_varint-encoding (encode_length first) _ length_fits,
          bl,
          sm,
          pr,
          ty,
          d.0,
          taken,
        )
        (rw taken_valid pc)

  measured_size :
      Encodable
        (1 + length (encoding first.largest) + length (encoding (encode_ack_delay delay)) + 2)
        1
        first.smallest
        rs
        n
      → length (ack_type f ∷ body f first rs n) ≤ max_ack_frame_size + 32
  measured_size k = omega (
    arith,
    k.sized,
    k.few,
    q,
    length-count_bytes f,
    length-append (encoding first.largest) (
        encoding (encode_ack_delay delay)
        ++ (encoding (n - 1)
            ++ (encoding (encode_length first)
                ++ (ranges_bytes first.smallest (take (n - 1) rs) ++ count_bytes f)))),
    length-append (encoding (encode_ack_delay delay)) (
        encoding (n - 1)
        ++ (encoding (encode_length first)
            ++ (ranges_bytes first.smallest (take (n - 1) rs) ++ count_bytes f))),
    length-append (encoding (n - 1)) (
        encoding (encode_length first)
        ++ (ranges_bytes first.smallest (take (n - 1) rs) ++ count_bytes f)),
    length-append (encoding (encode_length first))
        (ranges_bytes first.smallest (take (n - 1) rs) ++ count_bytes f),
    length-append (ranges_bytes first.smallest (take (n - 1) rs)) (count_bytes f),
    length-encoding (encode_length first),
    short_count (n - 1) (omega (arith, k.few)),
  )

by_fields :
    (b rest : List ℕ) (rs : List AckRange) (delay a0 a1 ce : ℕ)
    → IsValid (record { ack_ranges = rs; delay_time = delay; ect0 = a0; ect1 = a1; ecnce = ce })
    → (n : ℕ) × Written
        (record { ack_ranges = rs; delay_time = delay; ect0 = a0; ect1 = a1; ecnce = ce })
        b
        rest
        n
by_fields b rest [] delay a0 a1 ce v = absurd (unfold validate_ack_ranges in cc)
by_fields b rest (first ∷ rs) delay a0 a1 ce v =
    let w = first_valid first rs v.valid_ranges in
    let d = decode-encode_ack_delay delay v.delay in
    let a = length-encoding first.largest in
    let l = length-encoding (encode_ack_delay delay) in
    let size =
      1 + length (encoding first.largest) + length (encoding (encode_ack_delay delay)) + 2 in
    let k =
      count_encodable_lem size 1 first.smallest rs (omega arith) (omega (arith, a, l)) (w.1)
        (omega (arith, w.0, v.number)) in
    let n = k.0 in
    let c : num_encodable_ack_ranges (framed first rs delay a0 a1 ce) ≡ ok n =
      unfold num_encodable_ack_ranges in
      rw
        (
          len_varint-encoding first.largest v.number,
          len_varint-encoding (encode_ack_delay delay) (d.1),
        )
        (k.1) in
    let p : 1 ≤ n = omega (arith, k.2.enough, a, l) in
    let q : n ≤ max_ack_frame_size = omega (arith, k.2.few) in
    (
      n,
      record {
        contents = body (framed first rs delay a0 a1 ce) first rs n;
        encodable = c;
        not_none = p;
        at_most_all = omega (arith, k.2.at_most);
        appended = appended-body first rs delay a0 a1 ce v (w.0) (w.1) n p q c b;
        measured = measured-body first rs delay a0 a1 ce v (w.0) (w.1) n p q c;
        bounded = measured_size first rs delay a0 a1 ce v (w.0) (w.1) n p q c (k.2);
        read_back =
            read-body first rs delay a0 a1 ce v (w.0) (w.1) n p q c rest
              (omega (arith, k.2.at_most));
      },
    )

-- A valid ACK frame, whose numbers have varints, is written with at least one and at most all of its
-- ranges, in as many bytes as `Length` says, and in at most 32 bytes more than the maximum size; and
-- parsing, at the exponent 3, gives those ranges, the delay in whole units, and the ECN counts back.
pub ack_frame-Written : (b rest : List ℕ) (f : AckFrame) → IsValid f → (n : ℕ) × Written f b rest n
ack_frame-Written b rest f v = by_fields b rest f.ack_ranges f.delay_time f.ect0 f.ect1 f.ecnce v
