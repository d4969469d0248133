-- ===== src/Ack/History/Ranges.antt =====
-- internal/ackhandler/received_packet_history.go: the ranges as a set of packet numbers.
use x_fec.Base.{
  ℕ, ◌+◌, ◌≤◌, ◌<◌, List, [], ◌∷◌, Bool, true, false, ltb, leb, ◌==◌, ◌&&◌, ◌||◌, not, ◌≡◌, refl,
  arith, Bool-cases, inl, inr, ◌⊎◌, subst, sym, ap, ◌∙◌,
}
use x_fec.Ack.History.{
  Interval, ReceivedPacketHistory, merge, add_to_ranges, delete_ranges_below, delete_below,
  is_in_ranges, is_potentially_duplicate,
}

-- The number lies in one of the ranges.
abbrev pub contains : ℕ → List Interval → Bool
contains q [] = false
contains q (el ∷ rest) = (leb el.start q && leb q el.end) || contains q rest

-- Ranges that are not empty, from the highest down, with a gap between any two and in front of `top`.
abbrev pub IsBelow : ℕ → List Interval → Type 0
IsBelow top [] = Unit
IsBelow top (el ∷ rest) = (el.start ≤ el.end) × (el.end + 1 < top) × IsBelow el.start rest

outside : (top q : ℕ) (l : List Interval) → IsBelow top l → (contains q l ≡ false) ⊎ (q + 1 < top)
outside top q [] w = inl refl
outside top q (el ∷ rest) w = ground (arith, outside el.start q rest w.2)

merge_lem :
    (top q : ℕ) (el : Interval) (rest : List Interval)
    → el.start ≤ el.end
    → el.end + 1 < top
    → IsBelow (el.start + 1) rest
    → IsBelow top (merge el rest) × (contains q (merge el rest) ≡ contains q (el ∷ rest))
unfolding merge
merge_lem top q el [] a b w = ((a, b, tt), refl)
merge_lem top q el (prev ∷ rest) a b w = elim (Bool-cases (prev.end + 1 == el.start)) [
  | inl e ↦ rw e ((omega arith, b, w.2), ground arith)
  | inr e ↦ rw e ((a, b, (w.0, ground arith, w.2)), refl)
]

-- What adding `p` to `l` is to do, for the ranges and the answer of the code.
abbrev pub IsAdded : ℕ → ℕ → ℕ → List Interval → List Interval × Bool → Type 0
IsAdded top p q l r =
    IsBelow top r.0 × (r.1 ≡ not (contains p l)) × (contains q r.0 ≡ ((p == q) || contains q l))

-- The branches of one round, by where `p` stands.
module _ (top p q : ℕ) (el : Interval) (rest : List Interval) (w : IsBelow top (el ∷ rest)) where
  add_inside : el.start ≤ p → p ≤ el.end → IsAdded top p q (el ∷ rest) (add_to_ranges p (el ∷ rest))
  add_inside lo hi =
      let e : add_to_ranges p (el ∷ rest) ≡ (el ∷ rest, false) =
        unfold add_to_ranges in ground arith in
      subst (IsAdded top p q (el ∷ rest)) (sym e) (w, ground arith, ground arith)

  add_behind :
      p + 1 < top → el.end + 1 ≡ p → IsAdded top p q (el ∷ rest) (add_to_ranges p (el ∷ rest))
  add_behind h at =
      let e : add_to_ranges p (el ∷ rest) ≡ (record { start = el.start; end = p } ∷ rest, true) =
        unfold add_to_ranges in ground arith in
      subst (IsAdded top p q (el ∷ rest)) (sym e) (
        (omega (arith, w.0), h, w.2),
        ground (arith, outside el.start p rest w.2, w.0),
        ground (arith, w.0),
      )

  add_beyond :
      p + 1 < top → el.end + 1 < p → IsAdded top p q (el ∷ rest) (add_to_ranges p (el ∷ rest))
  add_beyond h far =
      let e : add_to_ranges p (el ∷ rest) ≡ (record { start = p; end = p } ∷ el ∷ rest, true) =
        unfold add_to_ranges in ground (arith, w.0) in
      subst (IsAdded top p q (el ∷ rest)) (sym e) (
        (omega arith, h, (w.0, far, w.2)),
        ground (arith, outside el.start p rest w.2, w.0),
        ground arith,
      )

  add_before : p + 1 ≡ el.start → IsAdded top p q (el ∷ rest) (add_to_ranges p (el ∷ rest))
  add_before at =
      let wider : Interval = record { start = p; end = el.end } in
      let e : add_to_ranges p (el ∷ rest) ≡ (merge wider rest, true) =
        unfold add_to_ranges in ground (arith, w.0) in
      let (below, same) =
        merge_lem top q wider rest (omega (arith, w.0)) w.1
          (subst (λ n. IsBelow n rest) (sym at) w.2) in
      subst (IsAdded top p q (el ∷ rest)) (sym e)
        (below, ground (arith, outside el.start p rest w.2, w.0), same ∙ ground (arith, w.0))

  add_lower :
      p + 1 < el.start
      → IsAdded el.start p q rest (add_to_ranges p rest)
      → IsAdded top p q (el ∷ rest) (add_to_ranges p (el ∷ rest))
  add_lower low (below, new, same) =
      let lower = add_to_ranges p rest in
      let e : add_to_ranges p (el ∷ rest) ≡ (el ∷ lower.0, lower.1) =
        unfold add_to_ranges in ground (arith, w.0) in
      subst (IsAdded top p q (el ∷ rest)) (sym e)
        ((w.0, w.1, below), ground (arith, new), ground (arith, same))

order :
    (p : ℕ) (el : Interval)
    → ((el.start ≤ p) × (p ≤ el.end))
      ⊎ ((el.end + 1 ≡ p) ⊎ ((el.end + 1 < p) ⊎ ((p + 1 ≡ el.start) ⊎ (p + 1 < el.start))))
order p el = ground arith

-- A packet number that `top` leaves room for is added to well-formed ranges: they stay well formed, the
-- answer says whether the number is new, and the ranges then hold that number and those before.
pub add_to_ranges_lem :
    (top p q : ℕ) (l : List Interval)
    → IsBelow top l
    → p + 1 < top
    → IsAdded top p q l (add_to_ranges p l)
add_to_ranges_lem top p q [] w h =
    unfold add_to_ranges in ((omega arith, h, tt), refl, ground arith)
add_to_ranges_lem top p q (el ∷ rest) w h = elim (order p el) [
  | inl (lo, hi) ↦ add_inside top p q el rest w lo hi
  | inr (inl e) ↦ add_behind top p q el rest w h e
  | inr (inr (inl e)) ↦ add_beyond top p q el rest w h e
  | inr (inr (inr (inl e))) ↦ add_before top p q el rest w e
  | inr (inr (inr (inr e))) ↦
      add_lower top p q el rest w e (add_to_ranges_lem el.start p q rest w.2 e)
]

-- What deleting below `p` is to do. The loop has returned if a range reaches `p`, and otherwise it has
-- deleted all.
abbrev IsDeleted : ℕ → ℕ → ℕ → List Interval → List Interval × Bool → Type 0
IsDeleted top p q l r =
    IsBelow top r.0
    × (contains q r.0 ≡ (contains q l && leb p q))
    × (((r.1 ≡ false) × (r.0 ≡ [])) ⊎ ((r.1 ≡ true) × (p + 1 < top)))

cut_order :
    (p : ℕ) (el : Interval) → (el.end < p) ⊎ (((el.start < p) × (p ≤ el.end)) ⊎ (p ≤ el.start))
cut_order p el = ground arith

module _ (top p q : ℕ) (el : Interval) (rest : List Interval) (w : IsBelow top (el ∷ rest)) where
  delete_none :
      IsDeleted el.start p q rest (delete_ranges_below p rest)
      → (delete_ranges_below p rest).1 ≡ true
      → p + 1 < el.start
      → IsDeleted top p q (el ∷ rest) (delete_ranges_below p (el ∷ rest))
  delete_none (below, same, which) stopped far =
      let lower = delete_ranges_below p rest in
      let e : delete_ranges_below p (el ∷ rest) ≡ (el ∷ lower.0, true) =
        unfold delete_ranges_below in ground (arith, stopped) in
      subst (IsDeleted top p q (el ∷ rest)) (sym e)
        ((w.0, w.1, below), ground (arith, same), inr (refl, omega (arith, w.0, w.1)))

  delete_some :
      IsDeleted el.start p q rest (delete_ranges_below p rest)
      → (delete_ranges_below p rest).1 ≡ false
      → (delete_ranges_below p rest).0 ≡ []
      → IsDeleted top p q (el ∷ rest) (delete_ranges_below p (el ∷ rest))
  delete_some (below, same, which) going empty =
      let lower = delete_ranges_below p rest in
      let gone : (contains q rest && leb p q) ≡ false = sym same ∙ ap (contains q) empty in
      elim (cut_order p el) [
        | inl over ↦
            let e : delete_ranges_below p (el ∷ rest) ≡ ([], false) =
              unfold delete_ranges_below in ground (arith, going, empty) in
            subst (IsDeleted top p q (el ∷ rest)) (sym e)
              (tt, ground (arith, gone), inl (refl, refl))
        | inr (inl (lo, hi)) ↦
            let e : delete_ranges_below p (el ∷ rest)
                ≡ (record { start = p; end = el.end } ∷ [], true) =
              unfold delete_ranges_below in ground (arith, going, empty) in
            subst (IsDeleted top p q (el ∷ rest)) (sym e)
              ((hi, w.1, tt), ground (arith, gone), inr (refl, omega (arith, w.1)))
        | inr (inr lo) ↦
            let e : delete_ranges_below p (el ∷ rest) ≡ (el ∷ [], true) =
              unfold delete_ranges_below in ground (arith, going, empty, w.0) in
            subst (IsDeleted top p q (el ∷ rest)) (sym e)
              ((w.0, w.1, tt), ground (arith, gone), inr (refl, omega (arith, w.0, w.1)))
      ]

delete_ranges_below_lem :
    (top p q : ℕ) (l : List Interval)
    → IsBelow top l
    → IsDeleted top p q l (delete_ranges_below p l)
delete_ranges_below_lem top p q [] w = unfold delete_ranges_below in (tt, refl, inl (refl, refl))
delete_ranges_below_lem top p q (el ∷ rest) w =
    let lower = delete_ranges_below_lem el.start p q rest w.2 in
    elim lower.2 [
      | inl (going, empty) ↦ delete_some top p q el rest w lower going empty
      | inr (stopped, far) ↦ delete_none top p q el rest w lower stopped far
    ]

-- For well-formed ranges, deleting below a number that is not below an earlier bound leaves well-formed
-- ranges with exactly the old numbers that are at least that number, and records it as the new bound.
pub delete_below_lem :
    (top p q : ℕ) (h : ReceivedPacketHistory)
    → IsBelow top h.ranges
    → h.deleted_below ≤ p
    → IsBelow top (delete_below h p).ranges
      × (contains q (delete_below h p).ranges ≡ (contains q h.ranges && leb p q))
      × ((delete_below h p).deleted_below ≡ p)
delete_below_lem top p q h w le =
    let e : delete_below h p
        ≡ record h { ranges = (delete_ranges_below p h.ranges).0; deleted_below = p } =
      unfold delete_below in ground arith in
    let (below, same, which) = delete_ranges_below_lem top p q h.ranges w in
    subst
      (λ (k : ReceivedPacketHistory).
        IsBelow top k.ranges
        × (contains q k.ranges ≡ (contains q h.ranges && leb p q))
        × (k.deleted_below ≡ p))
      (sym e) (below, same, refl)

is_in_ranges-contains :
    (top p : ℕ) (l : List Interval) → IsBelow top l → is_in_ranges p l ≡ contains p l
unfolding is_in_ranges
is_in_ranges-contains top p [] w = refl
is_in_ranges-contains top p (el ∷ rest) w =
    ground (arith, is_in_ranges-contains el.start p rest w.2, outside el.start p rest w.2, w.0)

-- With well-formed ranges, a packet counts as a duplicate exactly if its number is below the bound of
-- the deleted ones or lies in one of the ranges.
pub is_potentially_duplicate_lem :
    (top p : ℕ) (h : ReceivedPacketHistory)
    → IsBelow top h.ranges
    → is_potentially_duplicate h p ≡ (ltb p h.deleted_below || contains p h.ranges)
unfolding is_potentially_duplicate
is_potentially_duplicate_lem top p h w = ground (arith, is_in_ranges-contains top p h.ranges w)
