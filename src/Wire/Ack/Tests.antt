-- ===== src/Wire/Ack/Tests.antt =====
-- internal/wire/ack_frame.go: runs at concrete inputs.
use x_fec.Base.{ℕ, ◌≡◌, refl, [], ◌∷◌, true, ok, arith}
use x_fec.Wire.Ack.{AckRange, AckFrame, acks_packet, validate_ack_ranges}
use x_fec.Wire.Ack.RoundTrip.{IsValid, Written, ack_frame-Written}
use x_fec.Wire.Ack.Acked.{contains, acks_packet-contains}

abbrev three_ranges : AckFrame
three_ranges = record {
  ack_ranges =
      record { smallest = 400; largest = 500 }
      ∷ record { smallest = 100; largest = 398 }
      ∷ record { smallest = 0; largest = 7 }
      ∷ [];
  delay_time = 25000;
  ect0 = 5;
  ect1 = 0;
  ecnce = 1;
}

ranges_valid : validate_ack_ranges three_ranges.ack_ranges ≡ true
unfolding validate_ack_ranges x_fec.Wire.Ack.validate_each x_fec.Wire.Ack.validate_behind
ranges_valid = refl

three_ranges-IsValid : IsValid three_ranges
three_ranges-IsValid = record {
  valid_ranges = ranges_valid;
  number = omega arith;
  delay = omega arith;
  counts = omega arith;
}

ack_frame-Written_example : (n : ℕ) × Written three_ranges (1 ∷ []) (7 ∷ []) n
ack_frame-Written_example = ack_frame-Written (1 ∷ []) (7 ∷ []) three_ranges three_ranges-IsValid

acks_packet-contains_example :
    acks_packet three_ranges 399 ≡ ok (contains three_ranges.ack_ranges 399)
acks_packet-contains_example = acks_packet-contains three_ranges 399 ranges_valid
