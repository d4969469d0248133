-- ===== src/Ack/Sent/Sending.antt =====
-- internal/ackhandler/sent_packet_history.go: packets that are sent or skipped.
use x_fec.Base.{
  ℕ, ◌+◌, ◌≡◌, refl, sym, ap, subst, List, [], ◌∷◌, ◌++◌, true, false, ◌==◌, if◌then◌else◌, Option,
  none, some, length, arith, inl, inr, ◌⊎◌, Bool-cases, length-append, Result, ok, err,
}
use x_fec.Ack.Sent.{
  Packet, outstanding, SentPacketHistory, HistoryError, non_sequential, check_sequential,
  skipped_packet, sent_non_ack_eliciting_packet, sent_ack_eliciting_packet, new_sent_packet_history,
  starts_nil, is_next,
}
use x_fec.Ack.Sent.Entries.{Numbered, one, tally-append, append-Numbered}
use x_fec.Ack.Sent.Invariant.{IsValid}

starts_append :
    (ps : List (Option Packet)) (p : Packet)
    → starts_nil ps ≡ false
    → starts_nil (ps ++ some p ∷ []) ≡ false
starts_append [] p s = refl
starts_append (none ∷ ps) p s = absurd (cc)
starts_append (some q ∷ ps) p s = refl

starts_append_nil :
    (q : Option Packet) (ps : List (Option Packet))
    → starts_nil (q ∷ ps) ≡ false
    → starts_nil ((q ∷ ps) ++ none ∷ []) ≡ false
starts_append_nil none ps s = absurd (cc)
starts_append_nil (some q) ps s = refl

-- A packet with the next number behind a valid history.
with_packet :
    (h : SentPacketHistory) (p : Packet) (n : ℕ)
    → IsValid h
    → is_next h.highest_packet_number p.packet_number ≡ true
    → n ≡ h.num_outstanding + one outstanding (some p)
    → IsValid (record {
      packets = h.packets ++ some p ∷ [];
      num_outstanding = n;
      highest_packet_number = some p.packet_number;
    })
with_packet h p n v x e = elim v.ends [
  | inl z ↦ record {
    first = p.packet_number;
    numbered = subst (λ ps. Numbered p.packet_number (ps ++ some p ∷ [])) (sym z) (refl, tt);
    ends =
        inr (
          p.packet_number,
          refl,
          omega (arith, length-append h.packets (some p ∷ []), ap length z),
        );
    starts = starts_append h.packets p v.starts;
    counted = omega (arith, e, v.counted, tally-append outstanding h.packets (some p));
  }
  | inr (m, hm, lm) ↦
      let q : p.packet_number ≡ m + 1 =
        (let y = subst (λ o. is_next o p.packet_number ≡ true) hm x in ground (arith, y)) in
      record {
        first = v.first;
        numbered = append-Numbered v.first h.packets (some p) v.numbered (omega (arith, q, lm), tt);
        ends =
            inr
              (p.packet_number, refl, omega (arith, length-append h.packets (some p ∷ []), lm, q));
        starts = starts_append h.packets p v.starts;
        counted = omega (arith, e, v.counted, tally-append outstanding h.packets (some p));
      }
]

-- A number that is not tracked, behind a valid history.
with_nil :
    (ps : List (Option Packet)) (c : ℕ) (t : Option ℕ) (pn : ℕ)
    → IsValid (record { packets = ps; num_outstanding = c; highest_packet_number = t })
    → is_next t pn ≡ true
    → IsValid (record {
      packets = if length ps == 0 then [] else ps ++ none ∷ [];
      num_outstanding = c;
      highest_packet_number = some pn;
    })
with_nil [] c t pn v x = record {
  first = 0;
  numbered = tt;
  ends = inl refl;
  starts = refl;
  counted = v.counted;
}
with_nil (q ∷ ps) c t pn v x = elim v.ends [
  | inl z ↦ absurd (let y = ap length z in omega (arith, y))
  | inr (m, hm, lm) ↦
      let k : pn ≡ m + 1 = (let y = subst (λ o. is_next o pn ≡ true) hm x in ground (arith, y)) in
      let ne : (length (q ∷ ps) == 0) ≡ false = ground arith in
      rw ne (record {
        first = v.first;
        numbered = append-Numbered v.first (q ∷ ps) none v.numbered tt;
        ends = inr (pn, refl, omega (arith, length-append (q ∷ ps) (none ∷ []), lm, k));
        starts = starts_append_nil q ps v.starts;
        counted = omega (arith, v.counted, tally-append outstanding (q ∷ ps) none);
      })
]

-- The answer to a packet with the number `pn`: a valid history that ends with it, if it is the next one.
abbrev pub Extended : SentPacketHistory → ℕ → Result HistoryError SentPacketHistory → Type 0
Extended h pn r =
    ((is_next h.highest_packet_number pn ≡ true)
      × (h' : SentPacketHistory) × (r ≡ ok h')
      × IsValid h'
      × (h'.highest_packet_number ≡ some pn))
    ⊎ ((is_next h.highest_packet_number pn ≡ false) × (r ≡ err non_sequential))

extend :
    (h h' : SentPacketHistory) (pn : ℕ)
    → (is_next h.highest_packet_number pn ≡ true → IsValid h')
    → h'.highest_packet_number ≡ some pn
    → Extended h pn (check_sequential h pn h')
extend h h' pn f e = elim (Bool-cases (is_next h.highest_packet_number pn)) [
  | inl x ↦ inl (x, h', rw x refl, f x, e)
  | inr x ↦ inr (x, rw x refl)
]

-- A packet that is skipped, one that elicits no acknowledgement, and one that does: with the next number each
-- leaves a valid history, where the counter is the number of outstanding packets; with another number it is the
-- panic for a number out of order.
pub sending-Extended :
    (h : SentPacketHistory) (pn : ℕ) (p : Packet)
    → IsValid h
    → Extended h pn (skipped_packet h pn)
      × Extended h pn (sent_non_ack_eliciting_packet h pn)
      × Extended h p.packet_number (sent_ack_eliciting_packet h p)
unfolding skipped_packet sent_non_ack_eliciting_packet sent_ack_eliciting_packet
sending-Extended h pn p v = (
  (let s : Packet = record {
    packet_number = pn;
    declared_lost = false;
    skipped_packet = true;
    is_path_mtu_probe_packet = false;
  } in
      extend h (record h { packets = h.packets ++ some s ∷ []; highest_packet_number = some pn }) pn
        (λ x. with_packet h s h.num_outstanding v x (unfold outstanding in omega arith)) refl),
  extend h
      (record h {
        packets = if length h.packets == 0 then [] else h.packets ++ none ∷ [];
        highest_packet_number = some pn;
      })
      pn (λ x. with_nil h.packets h.num_outstanding h.highest_packet_number pn v x) refl,
  extend h
      (record h {
        packets = h.packets ++ some p ∷ [];
        num_outstanding = if outstanding p then h.num_outstanding + 1 else h.num_outstanding;
        highest_packet_number = some p.packet_number;
      })
      p.packet_number
      (λ x.
        with_packet h p (if outstanding p then h.num_outstanding + 1 else h.num_outstanding) v x
          (ground arith))
      refl,
)

-- A new history is valid.
pub new-IsValid : IsValid new_sent_packet_history
new-IsValid = record { first = 0; numbered = tt; ends = inl refl; starts = refl; counted = refl }
