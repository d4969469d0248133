-- ===== src/Ack/Sent.antt =====
-- internal/ackhandler/sent_packet_history.go and packet.go: what the history reads of a packet. A nil
-- entry is `none`, and so is an invalid packet number.
pub mod Entries
pub mod Find
pub mod Invariant
pub mod Removal
pub mod Sending
pub mod Tests
use x_fec.Base.{
  ℕ, zero, suc, ◌+◌, ◌-◌, List, [], ◌∷◌, ◌++◌, Bool, true, false, ltb, leb, ◌==◌, ◌&&◌, not,
  if◌then◌else◌, Option, none, some, Result, ok, err, ◌>>=◌, length, set, get_or,
}

pub record Packet : Type 0 where
  pub packet_number : ℕ
  pub declared_lost : Bool
  pub skipped_packet : Bool
  pub is_path_mtu_probe_packet : Bool

unfoldable pub outstanding : Packet → Bool
outstanding p = not p.declared_lost && not p.skipped_packet && not p.is_path_mtu_probe_packet

pub record SentPacketHistory : Type 0 where
  pub packets : List (Option Packet)
  pub num_outstanding : ℕ
  pub highest_packet_number : Option ℕ

pub data HistoryError : Type 0 where
  not_found : HistoryError
  -- The panics.
  non_sequential negative_outstanding remove_failed nil_packet : HistoryError

abbrev pub new_sent_packet_history : SentPacketHistory
new_sent_packet_history = record { packets = []; num_outstanding = 0; highest_packet_number = none }

abbrev pub is_next : Option ℕ → ℕ → Bool
is_next none pn = true
is_next (some n) pn = pn == n + 1

abbrev pub check_sequential :
    SentPacketHistory → ℕ → SentPacketHistory → Result HistoryError SentPacketHistory
check_sequential h pn h' = if is_next h.highest_packet_number pn then ok h' else err non_sequential

unfoldable pub skipped_packet : SentPacketHistory → ℕ → Result HistoryError SentPacketHistory
skipped_packet h pn =
    let p : Packet = record {
      packet_number = pn;
      declared_lost = false;
      skipped_packet = true;
      is_path_mtu_probe_packet = false;
    } in
    check_sequential h pn
      (record h { packets = h.packets ++ some p ∷ []; highest_packet_number = some pn })

-- A nil entry keeps the place of a packet that is not tracked.
unfoldable pub sent_non_ack_eliciting_packet :
    SentPacketHistory → ℕ → Result HistoryError SentPacketHistory
sent_non_ack_eliciting_packet h pn = check_sequential h pn (record h {
  packets = if length h.packets == 0 then [] else h.packets ++ none ∷ [];
  highest_packet_number = some pn;
})

unfoldable pub sent_ack_eliciting_packet :
    SentPacketHistory → Packet → Result HistoryError SentPacketHistory
unfolding outstanding
sent_ack_eliciting_packet h p = check_sequential h p.packet_number (record h {
  packets = h.packets ++ some p ∷ [];
  num_outstanding = if outstanding p then h.num_outstanding + 1 else h.num_outstanding;
  highest_packet_number = some p.packet_number;
})

-- The number of the first packet, if there is one. A nil entry panics.
abbrev pub first_number : List (Option Packet) → Result HistoryError (Option ℕ)
first_number [] = ok none
first_number (none ∷ ps) = err nil_packet
first_number (some p ∷ ps) = ok (some p.packet_number)

-- The index of a packet number, with the number of the first packet.
abbrev pub index_from : Option ℕ → ℕ → ℕ → Option ℕ
index_from none pn n = none
index_from (some first) pn n =
    if ltb pn first then none else if ltb (n - 1) (pn - first) then none else some (pn - first)

unfoldable pub get_index : SentPacketHistory → ℕ → Result HistoryError (Option ℕ)
get_index h pn = first_number h.packets >>= λ first. ok (index_from first pn (length h.packets))

-- All nil entries at the beginning are deleted.
unfoldable pub cleanup_start : List (Option Packet) → List (Option Packet)
cleanup_start [] = []
cleanup_start (none ∷ ps) = cleanup_start ps
cleanup_start (some p ∷ ps) = some p ∷ ps

unfoldable pub has_outstanding_packets : SentPacketHistory → Bool
has_outstanding_packets h = ltb 0 h.num_outstanding

unfoldable pub first_outstanding_of : List (Option Packet) → Option Packet
unfolding outstanding
first_outstanding_of [] = none
first_outstanding_of (none ∷ ps) = first_outstanding_of ps
first_outstanding_of (some p ∷ ps) =
    let rest = first_outstanding_of ps in if outstanding p then some p else rest

unfoldable pub first_outstanding : SentPacketHistory → Option Packet
unfolding has_outstanding_packets first_outstanding_of
first_outstanding h = if has_outstanding_packets h then first_outstanding_of h.packets else none

-- The packet is taken off the count.
unfoldable pub uncount : SentPacketHistory → Packet → Result HistoryError ℕ
unfolding outstanding
uncount h p =
    if outstanding p
    then (if h.num_outstanding == 0 then err negative_outstanding else ok (h.num_outstanding - 1))
    else ok h.num_outstanding

abbrev pub is_skipped : Option Packet → Bool
is_skipped none = false
is_skipped (some p) = p.skipped_packet

-- The skipped packets directly in front of an index, and where the loop stops.
unfoldable pub clear_skipped : ℕ → List (Option Packet) → List (Option Packet) × ℕ
clear_skipped zero ps = (ps, 0)
clear_skipped (suc i) ps =
    let further = clear_skipped i (set ps i none) in
    if is_skipped (get_or ps i none) then further else (ps, i)

abbrev pub starts_nil : List (Option Packet) → Bool
starts_nil [] = false
starts_nil (none ∷ ps) = true
starts_nil (some p ∷ ps) = false

unfoldable pub remove_at :
    SentPacketHistory → ℕ → Option Packet → Result HistoryError SentPacketHistory
unfolding uncount clear_skipped cleanup_start
remove_at h i none = err nil_packet
remove_at h i (some p) = do
  n ← uncount h p
  let c = clear_skipped i (set h.packets i none)
  let ps = if c.1 == 0 then cleanup_start c.0 else c.0
  if starts_nil ps then err remove_failed else ok (record h { packets = ps; num_outstanding = n })

abbrev pub at_index :
    Option ℕ
    → SentPacketHistory
    → (SentPacketHistory → ℕ → Option Packet → Result HistoryError SentPacketHistory)
    → Result HistoryError SentPacketHistory
    → Result HistoryError SentPacketHistory
at_index none h f r = r
at_index (some i) h f r = f h i (get_or h.packets i none)

unfoldable pub remove : SentPacketHistory → ℕ → Result HistoryError SentPacketHistory
unfolding get_index remove_at
remove h pn = get_index h pn >>= λ i. at_index i h remove_at (err not_found)

unfoldable pub declare_lost_at :
    SentPacketHistory → ℕ → Option Packet → Result HistoryError SentPacketHistory
unfolding uncount cleanup_start
declare_lost_at h i none = err nil_packet
declare_lost_at h i (some p) = do
  n ← uncount h p
  let ps = set h.packets i none
  ok (record h { packets = if i == 0 then cleanup_start ps else ps; num_outstanding = n })

unfoldable pub declare_lost : SentPacketHistory → ℕ → Result HistoryError SentPacketHistory
unfolding get_index declare_lost_at
declare_lost h pn = get_index h pn >>= λ i. at_index i h declare_lost_at (ok h)

unfoldable pub lowest_packet_number : SentPacketHistory → Result HistoryError (Option ℕ)
lowest_packet_number h = first_number h.packets
