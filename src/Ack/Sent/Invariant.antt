-- ===== src/Ack/Sent/Invariant.antt =====
-- internal/ackhandler/sent_packet_history.go: the invariant of the history.
use x_fec.Base.{
  ℕ, ◌+◌, ◌≡◌, ◌≢◌, refl, sym, subst, ap, ◌<◌, ◌≤◌, ◌∙◌, List, [], Bool, true, false, ◌==◌,
  if◌then◌else◌, Option, none, some, length, set, get_or, arith, inl, inr, ◌⊎◌, length-set, ok,
}
use x_fec.Ack.Sent.{
  Packet, outstanding, SentPacketHistory, cleanup_start, uncount, clear_skipped, starts_nil,
  remove_at, declare_lost_at, is_skipped,
}
use x_fec.Ack.Sent.Entries.{
  Numbered, one, tally, Skips, tally-set, set-Numbered, number_at, starts_set, clear_at_zero,
  clear_skipped-Cleared, cleanup_start_lem,
}
use x_fec.Ack.Sent.Find.{find, find-set, find-cleanup_start, clear_skipped-Swept}

-- The entries have consecutive numbers, the last of which is the highest; the first entry is a packet;
-- and the counter is the number of the outstanding packets.
pub record IsValid (h : SentPacketHistory) : Type 0 where
  pub first : ℕ
  pub numbered : Numbered first h.packets
  pub ends :
      (h.packets ≡ [])
      ⊎ ((m : ℕ) × (h.highest_packet_number ≡ some m) × (first + length h.packets ≡ m + 1))
  pub starts : starts_nil h.packets ≡ false
  pub counted : h.num_outstanding ≡ tally outstanding h.packets

-- A packet is gone: of the packets that are not skipped, exactly this one.
pub record Gone (h : SentPacketHistory) (p : Packet) (h' : SentPacketHistory) : Type 0 where
  pub valid : IsValid h'
  pub others :
      (f : Packet → Bool) → Skips f → tally f h'.packets + one f (some p) ≡ tally f h.packets
  pub same_highest : h'.highest_packet_number ≡ h.highest_packet_number

-- Of the packets with lower numbers, those are gone behind which there are only skipped ones up to the number; every
-- other packet stays.
pub record Removed (h : SentPacketHistory) (pn : ℕ) (h' : SentPacketHistory) : Type 0 where
  pub itself : find pn h'.packets ≡ none
  pub higher : (k : ℕ) → pn < k → find k h'.packets ≡ find k h.packets
  pub swept :
      (k : ℕ)
      → k < pn
      → ((j : ℕ) → k ≤ j → j < pn → is_skipped (find j h.packets) ≡ true)
      → find k h'.packets ≡ none
  pub stays :
      (k j : ℕ)
      → k ≤ j
      → j < pn
      → is_skipped (find j h.packets) ≡ false
      → find k h'.packets ≡ find k h.packets

-- Only the packet itself is gone.
abbrev pub Lost : SentPacketHistory → ℕ → SentPacketHistory → Type 0
Lost h pn h' = (k : ℕ) → find k h'.packets ≡ (if k == pn then none else find k h.packets)

cleaned :
    (k : ℕ) (ps : List (Option Packet)) (clean : Bool)
    → find k (if clean then cleanup_start ps else ps) ≡ find k ps
cleaned k ps true = find-cleanup_start k ps
cleaned k ps false = refl

outstanding-Skips : Skips outstanding
unfolding outstanding
outstanding-Skips p e = ground arith

module _ (h : SentPacketHistory) (v : IsValid h) (i : ℕ) (p : Packet)
    (e : get_or h.packets i none ≡ some p) where
  -- The counter behind a packet, without a panic.
  uncount_lem : (n : ℕ) × (uncount h p ≡ ok n) × (n + one outstanding (some p) ≡ h.num_outstanding)
  unfolding uncount
  uncount_lem =
      let t = tally-set outstanding h.packets i in
      let c : tally outstanding (set h.packets i none) + one outstanding (some p)
          ≡ h.num_outstanding =
        subst
          (λ q. tally outstanding (set h.packets i none) + one outstanding q ≡ h.num_outstanding) e
          (t ∙ sym v.counted) in
      (tally outstanding (set h.packets i none), ground arith, c)

  last_number : (m : ℕ) × (h.highest_packet_number ≡ some m) × (v.first + length h.packets ≡ m + 1)
  last_number = elim v.ends [
    | inr m ↦ m
    | inl z ↦ absurd (let q = subst (λ ps. get_or ps i none ≡ some p) z e in cc)
  ]

  -- The entries without the packet at the index, cleaned up at the front.
  gone :
      (ps : List (Option Packet)) (n : ℕ)
      → n + one outstanding (some p) ≡ h.num_outstanding
      → length ps ≡ length h.packets
      → Numbered v.first ps
      → ((f : Packet → Bool) → Skips f → tally f ps + one f (some p) ≡ tally f h.packets)
      → (clean : Bool) → (clean ≡ true) ⊎ (starts_nil ps ≡ false)
      → Gone h p
          (record h { packets = if clean then cleanup_start ps else ps; num_outstanding = n })
  gone ps n c l a t true d =
      let (m, hm, lm) = last_number in
      let (k, b, q, s, w) = cleanup_start_lem ps v.first a in
      record {
        valid = record {
          first = k;
          numbered = b;
          ends = inr (m, hm, omega (arith, q, l, lm));
          starts = s;
          counted = omega (arith, c, t outstanding outstanding-Skips, w outstanding, v.counted);
        };
        others = λ f z. omega (arith, t f z, w f);
        same_highest = refl;
      }
  gone ps n c l a t false d =
      let (m, hm, lm) = last_number in
      record {
        valid = record {
          first = v.first;
          numbered = a;
          ends = inr (m, hm, omega (arith, l, lm));
          starts = elim d [ inl x ↦ absurd (cc) | inr x ↦ x ];
          counted = omega (arith, c, t outstanding outstanding-Skips, v.counted);
        };
        others = t;
        same_highest = refl;
      }

  tally_without :
      (f : Packet → Bool) → tally f (set h.packets i none) + one f (some p) ≡ tally f h.packets
  tally_without f =
      subst (λ q. tally f (set h.packets i none) + one f q ≡ tally f h.packets) e
        (tally-set f h.packets i)

  find_removed :
      (k : ℕ)
      → find k (set h.packets i none) ≡ (if k == p.packet_number then none else find k h.packets)
  find_removed k =
      let q : p.packet_number ≡ v.first + i = number_at v.first h.packets i p v.numbered e in
      find-set v.first i k h.packets v.numbered
      ∙ ap (λ x. if k == x then none else find k h.packets) (sym q)

  swept_entries :
      (clean : Bool) (n : ℕ)
      → let qs = (clear_skipped i (set h.packets i none)).0 in
        Removed h p.packet_number
          (record h { packets = if clean then cleanup_start qs else qs; num_outstanding = n })
  swept_entries clean n =
      let ps = set h.packets i none in
      let qs = (clear_skipped i ps).0 in
      let q : p.packet_number ≡ v.first + i = number_at v.first h.packets i p v.numbered e in
      let w = clear_skipped-Swept v.first i ps (set-Numbered v.first h.packets i v.numbered) in
      let other : (k : ℕ) → k ≢ p.packet_number → find k ps ≡ find k h.packets =
        λ k d. ground (arith, find_removed k, d) in
      record {
        itself =
            cleaned p.packet_number qs clean
            ∙ (w.behind p.packet_number (omega (arith, q))
                ∙ ground (arith, find_removed p.packet_number));
        higher = λ k l.
            cleaned k qs clean ∙ (w.behind k (omega (arith, q, l)) ∙ other k (omega (arith, l)));
        swept = λ k l f.
            cleaned k qs clean
            ∙ w.swept k (omega (arith, q, l)) λ j y z.
              ap is_skipped (other j (omega (arith, q, z))) ∙ f j y (omega (arith, q, z));
        stays = λ k j l m d.
            cleaned k qs clean
            ∙ (w.stays k j l (omega (arith, q, m)) (ap is_skipped (other j (omega (arith, m))) ∙ d)
                ∙ other k (omega (arith, l, m)));
      }

  -- No nil entry is left in front, so `remove failed` is not reached.
  pub removed :
      (h' : SentPacketHistory) × (remove_at h i (some p) ≡ ok h')
      × Gone h p h'
      × Removed h p.packet_number h'
  unfolding remove_at
  removed =
      let (n, un, c) = uncount_lem in
      let ps = set h.packets i none in
      let r = clear_skipped-Cleared i ps in
      let qs = (clear_skipped i ps).0 in
      let clean = (clear_skipped i ps).1 == 0 in
      let g =
        gone qs n c (r.same_length ∙ length-set h.packets i none)
          (r.numbered v.first (set-Numbered v.first h.packets i v.numbered))
          (λ f z. omega (arith, r.same_tally f z, tally_without f)) clean
          (elim (starts_set h.packets i) [
            | inl z ↦ inl (
                let y = subst (λ j. (clear_skipped j ps).1 ≡ 0) (sym z) (clear_at_zero ps) in
                ground (arith, y))
            | inr q ↦ elim r.front [
              | inl z ↦ inl (ground (arith, z))
              | inr w ↦ inr (w ∙ (q ∙ v.starts))
            ]
          ]) in
      (
        record h { packets = if clean then cleanup_start qs else qs; num_outstanding = n },
        rw (un, g.valid.starts) refl,
        g,
        swept_entries clean n,
      )

  pub lost :
      (h' : SentPacketHistory) × (declare_lost_at h i (some p) ≡ ok h')
      × Gone h p h'
      × Lost h p.packet_number h'
  unfolding declare_lost_at
  lost =
      let (n, un, c) = uncount_lem in
      let ps = set h.packets i none in
      let g =
        gone ps n c (length-set h.packets i none) (set-Numbered v.first h.packets i v.numbered)
          (λ f z. tally_without f) (i == 0)
          (elim (starts_set h.packets i) [
            | inl z ↦ inl (ground arith)
            | inr q ↦ inr (q ∙ v.starts)
          ]) in
      (
        record h { packets = if i == 0 then cleanup_start ps else ps; num_outstanding = n },
        rw un refl,
        g,
        λ k. cleaned k ps (i == 0) ∙ find_removed k,
      )
