-- ===== src/Ack/Ecn/Tests.antt =====
-- internal/ackhandler/ecn.go: runs at concrete inputs.
use x_fec.Base.{◌<◌, ◌≤◌, ◌≡◌, refl, List, [], ◌∷◌, true, arith, ok, some}
use x_fec.Ack.Ecn.{
  EcnState, testing, unknown, capable, failed, EcnTracker, new_ecn_tracker, Ecn, non, ect0, Counts,
  sent_packet, mode, lost_packet, handle_newly_acked, ecn_marking, is_testing_packet,
}
use x_fec.Ack.Ecn.Safety.{handle_newly_acked_congested, last_testing_packet_marking}
use x_fec.Ack.Ecn.Path.{Event, send, lose, acked, IsPath, path, path_bounds}

-- Ten packets with ECT(0) were sent and four acknowledged, one of them with a CE mark.
abbrev known : EcnTracker
known = record new_ecn_tracker {
  state = capable;
  num_sent_testing = 10;
  num_sent_ect0 = 10;
  num_acked_ect0 = 3;
  num_acked_ecnce = 1;
  first_testing_packet = some 0;
  last_testing_packet = some 9;
  first_capable_packet = some 12;
}

abbrev counts : Counts
counts = record { ect0 = 4; ect1 = 0; ecnce = 2 }

congestion : (handle_newly_acked known (4 ∷ 5 ∷ []) counts).1 ≡ true
unfolding handle_newly_acked x_fec.Ack.Ecn.is_bogus x_fec.Ack.Ecn.acked_ect0 x_fec.Ack.Ecn.confirm
    x_fec.Ack.Ecn.accept_counts ecn_marking
congestion = refl

handle_newly_acked_congested_example :
    ((handle_newly_acked known (4 ∷ 5 ∷ []) counts).0.state ≡ capable)
    × (known.num_acked_ecnce < counts.ecnce)
    × (counts.ect0 ≤ known.num_sent_ect0)
    × (counts.ect1 ≤ known.num_sent_ect1)
handle_newly_acked_congested_example =
    handle_newly_acked_congested known (4 ∷ 5 ∷ []) counts congestion

abbrev nearly_tested : EcnTracker
nearly_tested = record new_ecn_tracker {
  state = testing;
  num_sent_testing = 9;
  num_sent_ect0 = 9;
  first_testing_packet = some 0;
}

last_testing_packet_marking_example :
    (e' : EcnTracker) × ((mode nearly_tested).1 ≡ ect0)
    × (sent_packet nearly_tested 9 ect0 ≡ ok e')
    × (e'.state ≡ unknown)
    × (is_testing_packet e' 9 ≡ true)
    × (ecn_marking e' 9 ≡ non)
last_testing_packet_marking_example =
    last_testing_packet_marking nearly_tested 9 0 refl refl refl refl (omega arith)

abbrev events : List Event
events =
    send 0
    ∷ send 1
    ∷ lose 0
    ∷ acked (1 ∷ []) (record { ect0 = 1; ect1 = 0; ecnce = 0 })
    ∷ send 2
    ∷ []

path_bounds_example : IsPath (path new_ecn_tracker events)
path_bounds_example = path_bounds events
