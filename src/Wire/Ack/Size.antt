-- ===== src/Wire/Ack/Size.antt =====
-- internal/wire/ack_frame.go: how many ranges are written.
use x_fec.Base.{
  ℕ, suc, ◌+◌, ◌-◌, ◌*◌, ◌≤◌, ◌≡◌, refl, List, [], ◌∷◌, ◌++◌, ltb, ok, arith, length, length-append,
  take, inl, inr, Bool-cases, ◌⊎◌,
}
use x_fec.Varint.{max_var_int8}
use x_fec.Varint.Codec.{encoding}
use x_fec.Wire.Codec.{len_varint-encoding}
use x_fec.Wire.Ack.{AckRange, max_ack_frame_size, encode_gap, encode_length, count_encodable}
use x_fec.Wire.Ack.Ranges.{Linked, fit, ranges_bytes}

pub length-encoding : (i : ℕ) → (1 ≤ length (encoding i)) × (length (encoding i) ≤ 8)
unfolding encoding
length-encoding i = (ground arith, ground arith)

-- The answer `n` for the ranges from index `i` on, with `size` bytes in front.
pub record Encodable (size : ℕ) (i : ℕ) (last : ℕ) (rs : List AckRange) (n : ℕ) : Type 0 where
  pub counted : i ≤ n + 1
  pub at_most : n ≤ i + length rs
  pub sized : size + length (ranges_bytes last (take (n - i) rs)) ≤ max_ack_frame_size
  pub few : size + 2 * (n - i) ≤ max_ack_frame_size
  pub enough : size + 16 ≤ max_ack_frame_size → i ≤ n

-- With the first of the ranges, and with one more.
widen :
    (size i last n : ℕ) (r : AckRange) (rs : List AckRange)
    → size ≤ max_ack_frame_size
    → Encodable
        (size + (length (encoding (encode_gap last r)) + length (encoding (encode_length r))))
        (i + 1)
        r.smallest
        rs
        n
    → Encodable size i last (r ∷ rs) n
widen size i last n r rs s e =
    let g = length-encoding (encode_gap last r) in
    let l = length-encoding (encode_length r) in
    record {
      counted = omega (arith, e.counted);
      at_most = omega (arith, e.at_most);
      sized = elim (split i n) [
        | inl q ↦ rw q (omega (arith, s))
        | inr q ↦ rw q (
            omega (
              arith,
              e.sized,
              length-append (encoding (encode_gap last r))
                  (encoding (encode_length r) ++ ranges_bytes r.smallest (take (n - (i + 1)) rs)),
              length-append (encoding (encode_length r))
                  (ranges_bytes r.smallest (take (n - (i + 1)) rs)),
            ))
      ];
      few = omega (arith, e.few, g.0, l.0, s);
      enough = λ q. omega (arith, e.counted);
    }
  where
    split : (i n : ℕ) → (n - i ≡ 0) ⊎ (n - i ≡ suc (n - (i + 1)))
    split i n = ground arith

-- One less than the index of the range that does not fit.
stopped :
    (size i last : ℕ) (rs : List AckRange)
    → 1 ≤ i
    → size ≤ max_ack_frame_size
    → (size + 16 ≤ max_ack_frame_size → i ≤ i - 1)
    → Encodable size i last rs (i - 1)
stopped size i last rs o s q =
    let z : i - 1 - i ≡ 0 = omega arith in
    record {
      counted = omega arith;
      at_most = omega arith;
      sized = rw z (omega (arith, s));
      few = omega (arith, s);
      enough = q;
    }

pub count_encodable_lem :
    (size i last : ℕ) (rs : List AckRange)
    → 1 ≤ i
    → size ≤ max_ack_frame_size
    → Linked last rs
    → last ≤ max_var_int8
    → (n : ℕ) × (count_encodable size i last rs ≡ ok n) × Encodable size i last rs n
unfolding count_encodable
count_encodable_lem size i last [] o s h k = (i, refl, ground arith)
count_encodable_lem size i last (r ∷ rs) o s (a, b, h) k =
    let f = fit last r a b k in
    let size' =
      size + (length (encoding (encode_gap last r)) + length (encoding (encode_length r))) in
    rw (len_varint-encoding (encode_gap last r) (f.0), len_varint-encoding (encode_length r) (f.1))
      (elim (Bool-cases (ltb max_ack_frame_size size')) [
        | inl t ↦ rw t (
          i - 1,
          refl,
          stopped size i last (r ∷ rs) o s (λ q.
              ground
                (arith, length-encoding (encode_gap last r), length-encoding (encode_length r))),
        )
        | inr t ↦
            let ih =
              count_encodable_lem size' (i + 1) r.smallest rs (omega arith) (ground arith) h
                (omega arith) in
            rw t (ih.0, ih.1, widen size i last ih.0 r rs s ih.2)
      ])
