-- ===== src/Ack/Ecn/Path.antt =====
-- internal/ackhandler/ecn.go: the states of a path over time, as internal/ackhandler/sent_packet_handler.go
-- drives it: a packet is sent with the marking of `Mode`.
use x_fec.Base.{ℕ, ◌<◌, ◌≤◌, ◌≡◌, List, [], ◌∷◌, arith, ok, err, Result}
use x_fec.Ack.Ecn.{
  initial, testing, unknown, EcnTracker, new_ecn_tracker, Counts, Panic, sent_packet, mode,
  lost_packet, handle_newly_acked,
}

-- What happens on a path: a packet is sent, a packet is lost, an acknowledgement arrives.
pub data Event : Type 0 where
  send lose : ℕ → Event
  acked : List ℕ → Counts → Event

abbrev pub sent : EcnTracker → Result Panic EcnTracker → EcnTracker
sent e (ok e') = e'
sent e (err p) = e

unfoldable pub happens : EcnTracker → Event → EcnTracker
happens e (send pn) = sent (mode e).0 (sent_packet (mode e).0 pn (mode e).1)
happens e (lose pn) = lost_packet e pn
happens e (acked packets c) = (handle_newly_acked e packets c).0

-- The counters of a path, by its state.
pub record IsPath (e : EcnTracker) : Type 0 where
  pub capped : e.num_sent_testing ≤ 10
  pub counted : e.num_sent_testing ≤ e.num_sent_ect0
  pub no_ect1 : e.num_sent_ect1 ≡ 0
  pub initial_unsent : e.state ≡ initial → e.num_sent_ect0 ≡ 0
  pub testing_sent : e.state ≡ testing → e.num_sent_testing ≡ e.num_sent_ect0
  pub testing_open : e.state ≡ testing → e.num_sent_ect0 < 10
  pub unknown_sent : e.state ≡ unknown → e.num_sent_ect0 ≡ 10

pub new-IsPath : IsPath new_ecn_tracker
new-IsPath = ground arith

send-IsPath : (e : EcnTracker) (pn : ℕ) → IsPath e → IsPath (happens e (send pn))
unfolding happens mode sent_packet
send-IsPath e pn v = ground arith

lose-IsPath : (e : EcnTracker) (pn : ℕ) → IsPath e → IsPath (happens e (lose pn))
unfolding happens lost_packet
lose-IsPath e pn v = ground arith

acked-IsPath :
    (e : EcnTracker) (ps : List ℕ) (c : Counts) → IsPath e → IsPath (happens e (acked ps c))
unfolding happens handle_newly_acked
acked-IsPath e ps c v = ground arith

-- A path after a row of events.
unfoldable pub path : EcnTracker → List Event → EcnTracker
path e [] = e
path e (x ∷ xs) = path (happens e x) xs

happens-IsPath : (e : EcnTracker) (x : Event) → IsPath e → IsPath (happens e x)
happens-IsPath e (send pn) v = send-IsPath e pn v
happens-IsPath e (lose pn) v = lose-IsPath e pn v
happens-IsPath e (acked ps c) v = acked-IsPath e ps c v

path_from : (e : EcnTracker) (xs : List Event) → IsPath e → IsPath (path e xs)
unfolding path
path_from e [] v = v
path_from e (x ∷ xs) v = path_from (happens e x) xs (happens-IsPath e x v)

-- After any events on a new path, at most ten testing packets have been counted, so the `uint8` never
-- wraps; while the path is being tested fewer than ten packets have a marking, all of them testing
-- packets; and where the result is not known yet exactly ten have.
pub path_bounds : (xs : List Event) → IsPath (path new_ecn_tracker xs)
path_bounds xs = path_from new_ecn_tracker xs new-IsPath

-- No event is a panic of `SentPacket`: the marking of `Mode` is always taken.
pub sent_packet-mode :
    (e : EcnTracker) (pn : ℕ) → (e' : EcnTracker) × (sent_packet (mode e).0 pn (mode e).1 ≡ ok e')
unfolding mode sent_packet
sent_packet-mode e pn = (happens e (send pn), unfold happens in ground arith)
