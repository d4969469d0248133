-- ===== src/Ack/History/Tests.antt =====
-- internal/ackhandler/received_packet_history.go: the history after the packets 1, 2, 3, 7 and 8.
use x_fec.Base.{List, [], ◌∷◌, ltb, leb, ◌&&◌, ◌||◌, ◌≡◌, arith}
use x_fec.Ack.History.{
  Interval, ReceivedPacketHistory, add_to_ranges, received_packet, delete_below,
  is_potentially_duplicate,
}
use x_fec.Ack.History.Ranges.{
  contains, IsBelow, IsAdded, add_to_ranges_lem, delete_below_lem, is_potentially_duplicate_lem,
}
use x_fec.Ack.History.Limit.{Registered, received_packet_lem}

abbrev two_ranges : List Interval
two_ranges = record { start = 7; end = 8 } ∷ record { start = 1; end = 3 } ∷ []

abbrev history : ReceivedPacketHistory
history = record { ranges = two_ranges; deleted_below = 1 }

two_ranges-IsBelow : IsBelow 20 two_ranges
two_ranges-IsBelow = (omega arith, omega arith, (omega arith, omega arith, tt))

add_to_ranges_lem_example : IsAdded 20 6 2 two_ranges (add_to_ranges 6 two_ranges)
add_to_ranges_lem_example = add_to_ranges_lem 20 6 2 two_ranges two_ranges-IsBelow (omega arith)

received_packet_lem_example : Registered 20 6 history (received_packet history 6)
received_packet_lem_example =
    received_packet_lem 20 6 history two_ranges-IsBelow (omega arith) (omega arith)

delete_below_lem_example :
    IsBelow 20 (delete_below history 3).ranges
    × (contains 2 (delete_below history 3).ranges ≡ (contains 2 two_ranges && leb 3 2))
    × ((delete_below history 3).deleted_below ≡ 3)
delete_below_lem_example = delete_below_lem 20 3 2 history two_ranges-IsBelow (omega arith)

is_potentially_duplicate_lem_example :
    is_potentially_duplicate history 2 ≡ (ltb 2 1 || contains 2 two_ranges)
is_potentially_duplicate_lem_example = is_potentially_duplicate_lem 20 2 history two_ranges-IsBelow
