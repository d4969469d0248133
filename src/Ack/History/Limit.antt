-- ===== src/Ack/History/Limit.antt =====
-- internal/ackhandler/received_packet_history.go: ReceivedPacket, with the limit on the ranges.
use x_fec.Base.{
  ℕ, zero, suc, ◌+◌, ◌-◌, ◌≤◌, ◌<◌, List, [], ◌∷◌, Bool, false, ◌==◌, ◌&&◌, ◌||◌, not, ◌≡◌, refl,
  arith, length, subst, sym, ap, ◌∙◌, take, length-take, leb, min, true, ◌∷◌, Bool-cases, inl, inr,
}
use x_fec.Ack.History.{
  Interval, ReceivedPacketHistory, add_to_ranges, received_packet, remove_front, remove_fronts,
  maybe_delete_old_ranges, max_num_ack_ranges,
}
use x_fec.Ack.History.Ranges.{contains, IsBelow, add_to_ranges_lem}

-- Removing the lowest range is to take the others.
remove_front-take : (l : List Interval) → remove_front l ≡ take (length l - 1) l
unfolding remove_front
remove_front-take [] = refl
remove_front-take (el ∷ []) = refl
remove_front-take (el ∷ next ∷ rest) =
    ap (λ r. el ∷ r) (remove_front-take (next ∷ rest))
    ∙ ap (λ n. take n (el ∷ next ∷ rest))
        (let e : suc (suc (length rest) - 1) ≡ suc (suc (length rest)) - 1 = omega arith in e)

take-take_less : (m n : ℕ) (l : List Interval) → m ≤ n → take m (take n l) ≡ take m l
take-take_less zero n l h = ground arith
take-take_less (suc m) zero [] h = refl
take-take_less (suc m) (suc n) [] h = refl
take-take_less (suc m) zero (x ∷ l) h = absurd (omega arith)
take-take_less (suc m) (suc n) (x ∷ l) h = ap (λ r. x ∷ r) (take-take_less m n l (omega arith))

take_all : (n : ℕ) (l : List Interval) → length l ≤ n → take n l ≡ l
take_all zero [] h = refl
take_all (suc n) [] h = refl
take_all zero (x ∷ l) h = absurd (omega arith)
take_all (suc n) (x ∷ l) h = ap (λ r. x ∷ r) (take_all n l (omega arith))

remove_fronts-take : (k : ℕ) (l : List Interval) → remove_fronts k l ≡ take (length l - k) l
unfolding remove_fronts
remove_fronts-take zero l = sym (take_all (length l - 0) l (omega arith))
remove_fronts-take (suc k) l =
    let r = remove_fronts-take k (remove_front l) in
    let e : remove_front l ≡ take (length l - 1) l = remove_front-take l in
    let n : length (remove_front l) ≡ length l - 1 =
      ap (λ (x : List Interval). length x) e ∙ omega (arith, length-take (length l - 1) l) in
    r
    ∙ (ap (λ x. take (length (remove_front l) - k) x) e
        ∙ (take-take_less (length (remove_front l) - k) (length l - 1) l (omega (arith, n))
            ∙ ap (λ x. take x l)
                (let d : length (remove_front l) - k ≡ length l - suc k = omega (arith, n) in d)))

-- The loop leaves the newest ranges, as many as are allowed.
maybe_delete_old_ranges-take :
    (l : List Interval) → maybe_delete_old_ranges l ≡ take max_num_ack_ranges l
unfolding maybe_delete_old_ranges
maybe_delete_old_ranges-take l =
    remove_fronts-take (length l - max_num_ack_ranges) l
    ∙ elim (Bool-cases (leb (length l) max_num_ack_ranges)) [
      | inl e ↦
          take_all (length l - (length l - max_num_ack_ranges)) l (ground arith)
          ∙ sym (take_all max_num_ack_ranges l (ground arith))
      | inr e ↦
          ap (λ x. take x l)
            (let d : length l - (length l - max_num_ack_ranges) ≡ max_num_ack_ranges =
                ground arith in
              d)
    ]

take-IsBelow : (top n : ℕ) (l : List Interval) → IsBelow top l → IsBelow top (take n l)
take-IsBelow top zero l w = tt
take-IsBelow top (suc n) [] w = tt
take-IsBelow top (suc n) (el ∷ l) w = (w.0, w.1, take-IsBelow el.start n l w.2)

contains_below : (top q : ℕ) (l : List Interval) → IsBelow top l → contains q l ≡ true → q < top
contains_below top q [] w c = ground arith
contains_below top q (el ∷ l) w c = ground (arith, w, contains_below el.start q l w.2)

-- A number that is not taken is older than all that are.
older :
    (top n q r : ℕ) (l : List Interval)
    → IsBelow top l
    → contains q l ≡ true
    → contains q (take n l) ≡ false
    → contains r (take n l) ≡ true
    → q < r
older top zero q r l w c d e = ground arith
older top (suc n) q r [] w c d e = ground arith
older top (suc n) q r (el ∷ l) w c d e =
    ground (arith, contains_below el.start q l w.2, older el.start n q r l w.2)

-- What a history and the answer are once a packet is registered: the ranges are the newest of those with the
-- packet's number added, as many as are allowed.
pub record Registered (top p : ℕ) (h : ReceivedPacketHistory) (r : ReceivedPacketHistory × Bool)
    : Type 0 where
  pub formed : IsBelow top r.0.ranges
  pub new : r.1 ≡ not (contains p h.ranges)
  pub as_many : length r.0.ranges ≡ min max_num_ack_ranges (length (add_to_ranges p h.ranges).0)
  pub no_others : (q : ℕ) → (contains q r.0.ranges && not ((p == q) || contains q h.ranges)) ≡ false
  pub all_kept :
      (q : ℕ)
      → length (add_to_ranges p h.ranges).0 ≤ max_num_ack_ranges
      → contains q r.0.ranges ≡ ((p == q) || contains q h.ranges)
  pub oldest_removed :
      (q s : ℕ)
      → ((p == q) || contains q h.ranges) ≡ true
      → contains q r.0.ranges ≡ false
      → contains s r.0.ranges ≡ true
      → q < s
  pub same_deleted : r.0.deleted_below ≡ h.deleted_below

taken_only : (q n : ℕ) (l : List Interval) → (contains q (take n l) && not (contains q l)) ≡ false
taken_only q zero l = refl
taken_only q (suc n) [] = refl
taken_only q (suc n) (el ∷ l) = ground (arith, taken_only q n l)

-- A packet that is not below the deleted ones, and that `top` leaves room for, is registered in well-formed ranges:
-- the answer says whether its number is new. The number is added to those before, and of the ranges that these make up as many
-- are left as there are, or 32 if there are more; none is removed if there are at most 32, and a number that is
-- removed is lower than each one that is left. They hold no number but that one and those before.
pub received_packet_lem :
    (top p : ℕ) (h : ReceivedPacketHistory)
    → IsBelow top h.ranges
    → p + 1 < top
    → h.deleted_below ≤ p
    → Registered top p h (received_packet h p)
received_packet_lem top p h w room le =
    let added = add_to_ranges p h.ranges in
    let same : (q : ℕ) → contains q added.0 ≡ ((p == q) || contains q h.ranges) =
      λ q. (add_to_ranges_lem top p q h.ranges w room).2 in
    let below = (add_to_ranges_lem top p p h.ranges w room).0 in
    let kept = take max_num_ack_ranges added.0 in
    let e : received_packet h p ≡ (record h { ranges = kept }, added.1) =
      unfold received_packet in ground (arith, maybe_delete_old_ranges-take added.0) in
    subst (Registered top p h) (sym e) (record {
      formed = take-IsBelow top max_num_ack_ranges added.0 below;
      new = (add_to_ranges_lem top p p h.ranges w room).1;
      as_many = length-take max_num_ack_ranges added.0;
      no_others = λ q. ground (arith, taken_only q max_num_ack_ranges added.0, same q);
      all_kept = λ q l.
          ap (λ (x : List Interval). contains q x) (take_all max_num_ack_ranges added.0 l) ∙ same q;
      oldest_removed = λ q s c d f. older top max_num_ack_ranges q s added.0 below (same q ∙ c) d f;
      same_deleted = refl;
    })
