-- ===== src/Ack/History.antt =====
-- internal/ackhandler/received_packet_history.go, for packet numbers that are not negative. The linked
-- list of ranges is a list with the back, which has the highest range, first.
pub mod Ranges
pub mod Limit
pub mod Tests
use x_fec.Base.{
  ℕ, zero, suc, ◌+◌, ◌-◌, List, [], ◌∷◌, ◌++◌, Bool, true, false, ltb, leb, ◌==◌, ◌&&◌,
  if◌then◌else◌, length,
}

abbrev pub max_num_ack_ranges : ℕ
max_num_ack_ranges = 32

pub record Interval : Type 0 where
  pub start : ℕ
  pub end : ℕ

pub record ReceivedPacketHistory : Type 0 where
  pub ranges : List Interval
  pub deleted_below : ℕ

-- The range `el`, which was extended at its beginning, in front of the lower ranges.
unfoldable pub merge : Interval → List Interval → List Interval
merge el [] = el ∷ []
merge el (prev ∷ rest) =
    if prev.end + 1 == el.start
    then record { start = prev.start; end = el.end } ∷ rest
    else el ∷ prev ∷ rest

-- A list that ends gets the new range at its beginning, also if it was empty from the start.
unfoldable pub add_to_ranges : ℕ → List Interval → List Interval × Bool
unfolding merge
add_to_ranges p [] = (record { start = p; end = p } ∷ [], true)
add_to_ranges p (el ∷ rest) =
    let lower = add_to_ranges p rest in
    if leb el.start p && leb p el.end
    then (el ∷ rest, false)
    else if el.end + 1 == p
    then (record { start = el.start; end = p } ∷ rest, true)
    else if el.start == p + 1
    then (merge (record { start = p; end = el.end }) rest, true)
    else if ltb el.end p
    then (record { start = p; end = p } ∷ el ∷ rest, true)
    else (el ∷ lower.0, lower.1)

unfoldable pub remove_front : List Interval → List Interval
remove_front [] = []
remove_front (el ∷ []) = []
remove_front (el ∷ next ∷ rest) = el ∷ remove_front (next ∷ rest)

-- The loop of `maybeDeleteOldRanges`, with `k` rounds left.
unfoldable pub remove_fronts : ℕ → List Interval → List Interval
remove_fronts zero l = l
remove_fronts (suc k) l = remove_fronts k (remove_front l)

unfoldable pub maybe_delete_old_ranges : List Interval → List Interval
maybe_delete_old_ranges l = remove_fronts (length l - max_num_ack_ranges) l

unfoldable pub received_packet : ReceivedPacketHistory → ℕ → ReceivedPacketHistory × Bool
received_packet h p =
    if ltb p h.deleted_below
    then (h, false)
    else let added = add_to_ranges p h.ranges in
      (record h { ranges = maybe_delete_old_ranges added.0 }, added.1)

-- The loop runs from the front, the end of the list: the ranges, and whether it has returned.
unfoldable pub delete_ranges_below : ℕ → List Interval → List Interval × Bool
delete_ranges_below p [] = ([], false)
delete_ranges_below p (el ∷ rest) =
    let lower = delete_ranges_below p rest in
    if lower.1
    then (el ∷ lower.0, true)
    else if ltb el.end p
    then (lower.0, false)
    else if ltb el.start p && leb p el.end
    then (record { start = p; end = el.end } ∷ lower.0, true)
    else (el ∷ lower.0, true)

unfoldable pub delete_below : ReceivedPacketHistory → ℕ → ReceivedPacketHistory
delete_below h p =
    if ltb p h.deleted_below
    then h
    else record h { ranges = (delete_ranges_below p h.ranges).0; deleted_below = p }

-- `wire.AckRange` is an interval too.
unfoldable pub append_ack_ranges : ReceivedPacketHistory → List Interval → List Interval
append_ack_ranges h ack_ranges = ack_ranges ++ h.ranges

unfoldable pub get_highest_ack_range : ReceivedPacketHistory → Interval
get_highest_ack_range h = elim h.ranges [ [] ↦ record { start = 0; end = 0 } | el ∷ rest ↦ el ]

unfoldable pub is_in_ranges : ℕ → List Interval → Bool
is_in_ranges p [] = false
is_in_ranges p (el ∷ rest) =
    let lower = is_in_ranges p rest in
    if ltb el.end p then false else if leb p el.end && leb el.start p then true else lower

unfoldable pub is_potentially_duplicate : ReceivedPacketHistory → ℕ → Bool
is_potentially_duplicate h p = if ltb p h.deleted_below then true else is_in_ranges p h.ranges
