-- ===== src/Wire/Ack/Acked.antt =====
-- internal/wire/ack_frame.go: which packets a frame acknowledges.
use x_fec.Base.{
  ℕ, ◌+◌, ◌≤◌, ◌<◌, ◌≡◌, refl, List, [], ◌∷◌, Bool, true, false, leb, ltb, ◌&&◌, ◌||◌, ok, arith,
  inl, inr, Bool-cases, ap, sym,
}
use x_fec.Wire.Ack.{AckRange, AckFrame, validate_ack_ranges, acks_packet, search_range, last_of}
use x_fec.Wire.Ack.Ranges.{Linked}
use x_fec.Wire.Ack.RoundTrip.{first_valid}

-- Some range holds the number.
unfoldable pub contains : List AckRange → ℕ → Bool
contains [] p = false
contains (r ∷ rs) p = leb r.smallest p && leb p r.largest || contains rs p

none_above :
    (last p : ℕ) (rs : List AckRange) → Linked last rs → last ≤ p + 1 → contains rs p ≡ false
unfolding contains
none_above last p [] h k = refl
none_above last p (r ∷ rs) (o, l, h) k = ground (arith, none_above r.smallest p rs h (omega arith))

none_below :
    (p : ℕ) (r : AckRange) (rs : List AckRange)
    → Linked r.smallest rs
    → p < (last_of r rs).smallest
    → contains (r ∷ rs) p ≡ false
unfolding contains
none_below p r [] h k = ground arith
none_below p r (s ∷ rs) (o, l, h) k =
    let i = none_below p s rs h k in let b = lowest s rs h in ground (arith, i, b)
  where
    lowest :
        (s : AckRange) (rs : List AckRange)
        → Linked s.smallest rs
        → (last_of s rs).smallest ≤ s.smallest
    lowest s [] h = omega arith
    lowest s (t ∷ rs) (o, l, h) = omega (arith, lowest t rs h)

search_range_lem :
    (p : ℕ) (r : AckRange) (rs : List AckRange)
    → r.smallest ≤ r.largest
    → Linked r.smallest rs
    → (last_of r rs).smallest ≤ p
    → (s : AckRange) × (search_range p (r ∷ rs) ≡ ok s) × (leb p s.largest ≡ contains (r ∷ rs) p)
unfolding search_range contains
search_range_lem p r [] o h k = (r, ground arith, ground arith)
search_range_lem p r (t ∷ rs) o (q, l, h) k = elim (Bool-cases (leb r.smallest p)) [
  | inl e ↦ (r, ground (arith, e), ground (arith, none_above t.smallest p rs h (ground arith)))
  | inr e ↦ let i = search_range_lem p t rs q h k in (i.0, rw e (i.1), rw e (i.2))
]

acked :
    (p : ℕ) (rs : List AckRange) (d a0 a1 ce : ℕ)
    → validate_ack_ranges rs ≡ true
    → acks_packet (record { ack_ranges = rs; delay_time = d; ect0 = a0; ect1 = a1; ecnce = ce }) p
      ≡ ok (contains rs p)
unfolding acks_packet validate_ack_ranges
acked p [] d a0 a1 ce v = cc
acked p (r ∷ rs) d a0 a1 ce v =
    let w = first_valid r rs v in
    elim (Bool-cases (ltb p (last_of r rs).smallest)) [
      | inl e ↦ rw e (ap ok (sym (none_below p r rs (w.1) (ground arith))))
      | inr e ↦ elim (Bool-cases (ltb r.largest p)) [
        | inl g ↦
            rw (e, g)
              (ap ok (
                sym (none_above (r.largest + 2) p (r ∷ rs) (w.0, omega arith, w.1) (ground arith))))
        | inr g ↦
            let i = search_range_lem p r rs (w.0) (w.1) (ground arith) in
            rw (e, g, i.1) (ap ok (i.2))
      ]
    ]

-- For valid ranges the search finds the packets of the frame: a packet is acknowledged exactly when
-- some range holds its number, and no index is out of range.
pub acks_packet-contains :
    (f : AckFrame) (p : ℕ)
    → validate_ack_ranges f.ack_ranges ≡ true
    → acks_packet f p ≡ ok (contains f.ack_ranges p)
acks_packet-contains f p v = acked p f.ack_ranges f.delay_time f.ect0 f.ect1 f.ecnce v
