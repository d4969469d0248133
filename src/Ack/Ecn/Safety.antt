-- ===== src/Ack/Ecn/Safety.antt =====
-- internal/ackhandler/ecn.go: single operations.
use x_fec.Base.{ℕ, ◌+◌, ◌<◌, ◌≤◌, ◌≡◌, refl, List, true, false, arith, ok, some, none, ◌%◌, ◌^◌}
use x_fec.Ack.Ecn.{
  EcnState, testing, unknown, capable, failed, EcnTracker, Ecn, non, ect0, Counts, sent_packet,
  mode, lost_packet, handle_newly_acked, acked_ect0, ecn_marking, is_testing_packet,
}

-- An acknowledgement counts as a sign of congestion only on a path that is capable afterwards, and only
-- if the frame reports more CE marks than were counted before, no more ECT(0) marks than packets that were sent
-- with ECT(0), and no more ECT(1) marks than packets that were sent with ECT(1).
pub handle_newly_acked_congested :
    (e : EcnTracker) (packets : List ℕ) (c : Counts)
    → (handle_newly_acked e packets c).1 ≡ true
    → ((handle_newly_acked e packets c).0.state ≡ capable)
      × (e.num_acked_ecnce < c.ecnce)
      × (c.ect0 ≤ e.num_sent_ect0)
      × (c.ect1 ≤ e.num_sent_ect1)
unfolding handle_newly_acked x_fec.Ack.Ecn.is_bogus
handle_newly_acked_congested e packets c h = ground arith

-- A path that failed stays failed: no packet gets an ECN marking, no loss and no acknowledgement changes
-- its state, and no acknowledgement is a sign of congestion.
pub failed_stays :
    (e : EcnTracker) (pn : ℕ) (packets : List ℕ) (c : Counts)
    → e.state ≡ failed
    → (mode e ≡ (e, non))
      × (sent_packet e pn (mode e).1 ≡ ok e)
      × (lost_packet e pn ≡ e)
      × (handle_newly_acked e packets c ≡ (e, false))
unfolding mode sent_packet lost_packet handle_newly_acked
failed_stays e pn packets c h = (ground arith, ground arith, ground arith, ground arith)

-- The packet that ends the testing was sent with ECT(0), as a testing packet; `ecnMarking` takes it for
-- one with no marking.
pub last_testing_packet_marking :
    (e : EcnTracker) (pn first : ℕ)
    → e.state ≡ testing
    → e.num_sent_ect0 + e.num_sent_ect1 ≡ 9
    → e.first_testing_packet ≡ some first
    → e.first_capable_packet ≡ none
    → first ≤ pn
    → (e' : EcnTracker) × ((mode e).1 ≡ ect0)
      × (sent_packet e pn ect0 ≡ ok e')
      × (e'.state ≡ unknown)
      × (is_testing_packet e' pn ≡ true)
      × (ecn_marking e' pn ≡ non)
unfolding mode sent_packet is_testing_packet ecn_marking
last_testing_packet_marking e pn first st nine f g le = (
  record e {
    num_sent_ect0 = e.num_sent_ect0 + 1;
    num_sent_testing = (e.num_sent_testing + 1) % 2 ^ 8;
    state = unknown;
    last_testing_packet = some pn;
  },
  ground arith,
  ground arith,
  refl,
  ground arith,
  ground arith,
)
