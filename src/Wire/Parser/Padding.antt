-- ===== src/Wire/Parser/Padding.antt =====
-- internal/wire/frame_parser.go: PADDING frames, and the rounds of the loop.
use x_fec.Base.{
  ℕ, zero, suc, ◌≤◌, ◌<◌, ◌≡◌, refl, ◌∙◌, List, [], ◌∷◌, ◌++◌, ◌==◌, none, ok, err, inl, inr, arith,
  length, replicate, Result-cases, Bool-cases, subst,
}
use x_fec.Varint
use x_fec.Wire.{Parsed, read_varint}
use x_fec.Wire.Parser.{
  Frame, EncryptionLevel, FrameParser, skip_padding, after_type, parse_loop, parse_next, Next,
  parse_frame, finished,
}
use x_fec.Wire.Parser.RoundTrip.{small_type}

read_shorter :
    (src rest : List ℕ) (v : ℕ) → Varint.read src ≡ ok (v, rest) → length rest < length src
unfolding Varint.read
read_shorter [] rest v e = cc
read_shorter (f ∷ r) rest v e = ground arith

read_varint_shorter :
    (src rest : List ℕ) (v : ℕ) → read_varint src ≡ ok (v, rest) → length rest < length src
read_varint_shorter src rest v e = elim (Result-cases (Varint.read src)) [
  | inl ((w, r), q) ↦ read_shorter src rest v (q ∙ cc)
  | inr (x, q) ↦ absurd (cc)
]

loop_same :
    (n m : ℕ) (p : FrameParser) (level : EncryptionLevel) (r : List ℕ)
    → length r ≤ n
    → length r ≤ m
    → parse_loop n p level r ≡ parse_loop m p level r
unfolding parse_loop
loop_same zero zero p level [] h k = refl
loop_same zero (suc m) p level [] h k = refl
loop_same (suc n) zero p level [] h k = refl
loop_same (suc n) (suc m) p level [] h k = refl
loop_same zero m p level (b ∷ r) h k = absurd (omega arith)
loop_same (suc n) zero p level (b ∷ r) h k = absurd (omega arith)
loop_same (suc n) (suc m) p level (b ∷ r) h k = elim (Result-cases (read_varint (b ∷ r))) [
  | inr (x, e) ↦ rw e refl
  | inl ((t, r'), e) ↦
      let s = read_varint_shorter (b ∷ r) r' t e in
      let ih = loop_same n m p level r' (omega arith) (omega arith) in
      rw e (elim (Bool-cases (t == 0)) [ inl z ↦ rw z ih | inr z ↦ rw z refl ])
]

-- The loop ends: more rounds than there are bytes give the same.
pub parse_loop_enough :
    (n : ℕ) (p : FrameParser) (level : EncryptionLevel) (r : List ℕ)
    → length r ≤ n
    → parse_loop n p level r ≡ parse_next p r level
unfolding parse_next
parse_loop_enough n p level r h = loop_same n (length r) p level r h (omega arith)

one_padding :
    (p : FrameParser) (level : EncryptionLevel) (r : List ℕ)
    → parse_next p (0 ∷ r) level ≡ parse_next p r level
unfolding parse_next parse_loop
one_padding p level r = rw (small_type 0 r refl) refl

-- PADDING in front of what follows is not seen, however much of it there is and at every level.
pub parse_next-padding :
    (p : FrameParser) (level : EncryptionLevel) (n : ℕ) (r : List ℕ)
    → parse_next p (replicate n 0 ++ r) level ≡ parse_next p r level
parse_next-padding p level zero r = refl
parse_next-padding p level (suc n) r =
    one_padding p level (replicate n 0 ++ r) ∙ parse_next-padding p level n r

-- The answer that there is no frame.
abbrev pub IsNone : Next → List ℕ → Type 0
IsNone o r = o ≡ ok (none, r)

finished_some : (t : ℕ) (q : Parsed Frame) (rest : List ℕ) → IsNone (finished t q) rest → rest ≡ []
finished_some t (ok (f, r)) rest e = absurd (cc)
finished_some t (err x) rest e = absurd (cc)

none_at_end :
    (n : ℕ) (p : FrameParser) (level : EncryptionLevel) (r rest : List ℕ)
    → length r ≤ n
    → IsNone (parse_loop n p level r) rest
    → rest ≡ []
unfolding parse_loop
none_at_end zero p level [] rest h e = cc
none_at_end (suc n) p level [] rest h e = cc
none_at_end zero p level (b ∷ r) rest h e = absurd (omega arith)
none_at_end (suc n) p level (b ∷ r) rest h e = elim (Result-cases (read_varint (b ∷ r))) [
  | inr (x, q) ↦
      absurd
        (let e' = subst (λ o. IsNone (after_type p level (parse_loop n p level) o) rest) q e in cc)
  | inl ((t, r'), q) ↦
      let s = read_varint_shorter (b ∷ r) r' t q in
      let ih = none_at_end n p level r' rest (omega arith) in
      let e' = subst (λ o. IsNone (after_type p level (parse_loop n p level) o) rest) q e in
      elim (Bool-cases (t == 0)) [
        | inl z ↦ ih (
            subst
              (λ c.
                IsNone
                  (skip_padding c (finished t (parse_frame p r' t level)) r' (parse_loop n p level))
                  rest)
              z e')
        | inr z ↦ finished_some t (parse_frame p r' t level) rest (
            subst
              (λ c.
                IsNone
                  (skip_padding c (finished t (parse_frame p r' t level)) r' (parse_loop n p level))
                  rest)
              z e')
      ]
]

-- The parser answers that there is no frame only when it has read every byte.
pub parse_next-none :
    (p : FrameParser) (level : EncryptionLevel) (r rest : List ℕ)
    → parse_next p r level ≡ ok (none, rest)
    → rest ≡ []
unfolding parse_next
parse_next-none p level r rest e = none_at_end (length r) p level r rest (omega arith) e
