-- ===== src/Ack/Sent/Removal.antt =====
-- internal/ackhandler/sent_packet_history.go: Remove and DeclareLost on a valid history.
use x_fec.Base.{ℕ, ◌≡◌, none, some, get_or, ◌⊎◌, Result, ok, err}
use x_fec.Ack.Sent.{Packet, SentPacketHistory, HistoryError, nil_packet, get_index}
use x_fec.Ack.Sent.Find.{find}
use x_fec.Ack.Sent.Invariant.{Gone}

-- The outcome of a removal: the packet with the number is gone, and the entries are those that `Left` says; or there is none
-- with it, and the answer is `missing`; or its entry is nil.
abbrev pub Taken :
    (SentPacketHistory → ℕ → SentPacketHistory → Type 0)
    → SentPacketHistory
    → ℕ
    → Result HistoryError SentPacketHistory
    → Result HistoryError SentPacketHistory
    → Type 0
Taken Left h pn missing r =
    ((h' : SentPacketHistory) × (p : Packet) × (find pn h.packets ≡ some p)
      × (r ≡ ok h')
      × Gone h p h'
      × Left h pn h')
    ⊎ ((get_index h pn ≡ ok none) × (r ≡ missing))
    ⊎ ((i : ℕ) × (get_index h pn ≡ ok (some i))
        × (get_or h.packets i none ≡ none)
        × (r ≡ err nil_packet))
