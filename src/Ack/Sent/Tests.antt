-- ===== src/Ack/Sent/Tests.antt =====
-- internal/ackhandler/sent_packet_history.go: runs at concrete inputs.
use x_fec.Base.{ℕ, refl, [], ◌∷◌, Bool, true, false, some, none, inr, arith}
use x_fec.Ack.Sent.{
  Packet, outstanding, SentPacketHistory, skipped_packet, sent_non_ack_eliciting_packet,
  sent_ack_eliciting_packet,
}
use x_fec.Ack.Sent.Invariant.{IsValid}
use x_fec.Ack.Sent.Sending.{Extended, sending-Extended}

abbrev packet : ℕ → Bool → Packet
packet n skipped = record {
  packet_number = n;
  declared_lost = false;
  skipped_packet = skipped;
  is_path_mtu_probe_packet = false;
}

-- Packet 6 was skipped, and 8 elicits no acknowledgement.
abbrev history : SentPacketHistory
history = record {
  packets = some (packet 5 false) ∷ some (packet 6 true) ∷ some (packet 7 false) ∷ none ∷ [];
  num_outstanding = 2;
  highest_packet_number = some 8;
}

history-IsValid : IsValid history
unfolding outstanding
history-IsValid = record {
  first = 5;
  numbered = omega arith;
  ends = inr (8, refl, refl);
  starts = refl;
  counted = refl;
}

sending-Extended_example :
    Extended history 9 (skipped_packet history 9)
    × Extended history 9 (sent_non_ack_eliciting_packet history 9)
    × Extended history 9 (sent_ack_eliciting_packet history (packet 9 false))
sending-Extended_example = sending-Extended history 9 (packet 9 false) history-IsValid
