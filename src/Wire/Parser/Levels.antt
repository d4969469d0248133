-- ===== src/Wire/Parser/Levels.antt =====
-- internal/wire/frame_parser.go: one packet at two encryption levels.
use x_fec.Base.{
  ℕ, zero, suc, ◌≡◌, refl, sym, subst, List, [], ◌∷◌, Bool, true, false, ◌==◌, none, some, ok, err,
  ◌⊎◌, inl, inr, length, Bool-cases,
}
use x_fec.Wire.{Parsed, read_varint, not_allowed_at_encryption_level}
use x_fec.Wire.Parser.{
  Frame, EncryptionLevel, initial, handshake, zero_rtt, one_rtt, FrameParser, frame_encoding_error,
  after_type, skip_padding, parse_loop, parse_next, Next, parse_frame, parse_by_type, finished,
  allowed, is_allowed_at_enc_level, ack_exponent,
}

-- The answer at a level, beside the answer `o` at the 1-RTT level.
abbrev pub AtLevel : EncryptionLevel → Next → Next → Type 0
AtLevel level (err e) o = o ≡ err e
AtLevel level (ok (none, r)) o = o ≡ ok (none, r)
AtLevel level (ok (some f, r)) o =
    ((is_allowed_at_enc_level f level ≡ true) × (o ≡ ok (some f, r)))
    ⊎ ((is_allowed_at_enc_level f level ≡ false)
        × (t : ℕ) × (o ≡ err (frame_encoding_error (some t) not_allowed_at_encryption_level)))

exponent_same :
    (p : FrameParser) (level : EncryptionLevel)
    → p.ack_delay_exponent ≡ 3
    → ack_exponent p level ≡ ack_exponent p one_rtt
exponent_same p initial e = sym e
exponent_same p handshake e = sym e
exponent_same p zero_rtt e = sym e
exponent_same p one_rtt e = refl

by_type_same :
    (p : FrameParser) (r : List ℕ) (t : ℕ) (level : EncryptionLevel)
    → p.ack_delay_exponent ≡ 3
    → parse_by_type p r t level ≡ parse_by_type p r t one_rtt
unfolding parse_by_type
by_type_same p r t level e = rw (exponent_same p level e) refl

finished-AtLevel :
    (level : EncryptionLevel) (t : ℕ) (q : Parsed Frame)
    → AtLevel level (finished t (allowed one_rtt q)) (finished t (allowed level q))
finished-AtLevel level t (err e) = refl
finished-AtLevel level t (ok (f, r)) = elim (Bool-cases (is_allowed_at_enc_level f level)) [
  | inl a ↦ inl (a, rw a refl)
  | inr a ↦ inr (a, t, rw a refl)
]

frame-AtLevel :
    (p : FrameParser) (r : List ℕ) (t : ℕ) (level : EncryptionLevel)
    → p.ack_delay_exponent ≡ 3
    → AtLevel level (finished t (parse_frame p r t one_rtt)) (finished t (parse_frame p r t level))
unfolding parse_frame
frame-AtLevel p r t level e =
    subst
      (λ q.
        AtLevel level (finished t (allowed one_rtt (parse_by_type p r t one_rtt)))
          (finished t (allowed level q)))
      (sym (by_type_same p r t level e)) (finished-AtLevel level t (parse_by_type p r t one_rtt))

skip-AtLevel :
    (p : FrameParser) (level : EncryptionLevel) (c : Bool) (r : List ℕ) (t : ℕ)
    (k l : List ℕ → Next)
    → p.ack_delay_exponent ≡ 3
    → AtLevel level (k r) (l r)
    → AtLevel level
        (skip_padding c (finished t (parse_frame p r t one_rtt)) r k)
        (skip_padding c (finished t (parse_frame p r t level)) r l)
skip-AtLevel p level true r t k l e h = h
skip-AtLevel p level false r t k l e h = frame-AtLevel p r t level e

after-AtLevel :
    (p : FrameParser) (level : EncryptionLevel)
    → p.ack_delay_exponent ≡ 3
    → (k l : List ℕ → Next) → ((r : List ℕ) → AtLevel level (k r) (l r))
    → (o : Parsed ℕ) → AtLevel level (after_type p one_rtt k o) (after_type p level l o)
after-AtLevel p level e k l h (err x) = refl
after-AtLevel p level e k l h (ok (t, r)) = skip-AtLevel p level (t == 0) r t k l e (h r)

loop-AtLevel :
    (n : ℕ) (p : FrameParser) (level : EncryptionLevel) (r : List ℕ)
    → p.ack_delay_exponent ≡ 3
    → AtLevel level (parse_loop n p one_rtt r) (parse_loop n p level r)
unfolding parse_loop
loop-AtLevel zero p level [] e = refl
loop-AtLevel (suc n) p level [] e = refl
loop-AtLevel zero p level (b ∷ r) e = refl
loop-AtLevel (suc n) p level (b ∷ r) e =
    after-AtLevel p level e (parse_loop n p one_rtt) (parse_loop n p level)
      (λ r. loop-AtLevel n p level r e) (read_varint (b ∷ r))

-- With the ACK delay exponent 3, a packet at another encryption level is answered as at 1-RTT, errors and
-- the end included, but for a frame that the level does not allow, which is an encoding error.
pub parse_next-AtLevel :
    (p : FrameParser) (level : EncryptionLevel) (r : List ℕ)
    → p.ack_delay_exponent ≡ 3
    → AtLevel level (parse_next p r one_rtt) (parse_next p r level)
unfolding parse_next
parse_next-AtLevel p level r e = loop-AtLevel (length r) p level r e
