-- ===== src/Util/RingBuffer/Refine.antt =====
-- internal/utils/ringbuffer/ringbuffer.go: the buffer as a queue.
use x_fec.Base.{
  ℕ, suc, ◌+◌, ◌-◌, ◌≤◌, ◌<◌, ◌≡◌, refl, sym, ap, ◌∙◌, List, [], ◌∷◌, ◌++◌, true, false, ltb, ◌==◌,
  ◌||◌, ◌*◌, if◌then◌else◌, Option, none, some, arith, ◌⊎◌, inl, inr, length, take, drop, set,
  get_or, replicate, Bool-cases, length-append, length-set, length-take, length-replicate,
  take_prefix,
}
use mathlib.Core.List.{append-nil, append_assoc}
use x_fec.Util.RingBuffer.{RingBuffer, len, is_empty, grow, push_in, push_back, pop_front}
use x_fec.Util.RingBuffer.Arrays

-- The elements from the head on, around the end of the array.
unfoldable pub contents {ℓ} : {A : Type ℓ} → RingBuffer A → List A
contents r =
    if r.full || ltb r.tail_pos r.head_pos
    then drop r.head_pos r.ring ++ take r.tail_pos r.ring
    else drop r.head_pos (take r.tail_pos r.ring)

pub record IsValid {ℓ} {A : Type ℓ} (r : RingBuffer A) : Type 0 where
  pub bounds :
      ((r.head_pos < length r.ring) × (r.tail_pos < length r.ring))
      ⊎ ((length r.ring ≡ 0) × (r.head_pos ≡ 0) × (r.tail_pos ≡ 0) × (r.full ≡ false))
  pub full_met : r.full ≡ true → r.head_pos ≡ r.tail_pos

-- Where there is room for one more element.
HasRoom {ℓ} : {A : Type ℓ} → RingBuffer A → Type 0
HasRoom r = (r.head_pos < length r.ring) × (r.tail_pos < length r.ring) × (r.full ≡ false)

lt-or-le : (m n : ℕ) → (m < n) ⊎ (n ≤ m)
lt-or-le m n = ground arith

module _ {ℓ} {A : Type ℓ} (z : A) where
  pub length-contents : (r : RingBuffer A) → IsValid r → length (contents r) ≡ len z r
  unfolding contents len
  length-contents r v = ground (
    arith,
    length-append (drop r.head_pos r.ring) (take r.tail_pos r.ring),
    Arrays.length-drop r.head_pos r.ring,
    Arrays.length-drop r.head_pos (take r.tail_pos r.ring),
    length-take r.tail_pos r.ring,
    length-take r.head_pos r.ring,
  )

  push_in-IsValid : (r : RingBuffer A) (t : A) → HasRoom r → IsValid (push_in z r t)
  unfolding push_in HasRoom
  push_in-IsValid r t h = ground (arith, length-set r.ring r.tail_pos t)

  written :
      (r : RingBuffer A) (t : A)
      → r.tail_pos < length r.ring
      → take (suc r.tail_pos) (set r.ring r.tail_pos t) ≡ take r.tail_pos r.ring ++ t ∷ []
  written r t h = Arrays.take-set_end r.tail_pos t r.ring h

  -- Both views of the contents, by where the tail is.
  wrapped :
      (r : RingBuffer A)
      → (r.full || ltb r.tail_pos r.head_pos) ≡ true
      → contents r ≡ drop r.head_pos r.ring ++ take r.tail_pos r.ring
  unfolding contents
  wrapped r e = rw e refl

  straight :
      (r : RingBuffer A)
      → (r.full || ltb r.tail_pos r.head_pos) ≡ false
      → contents r ≡ drop r.head_pos (take r.tail_pos r.ring)
  unfolding contents
  straight r e = rw e refl

  push_below :
      (r : RingBuffer A) (t : A)
      → HasRoom r
      → r.tail_pos < r.head_pos
      → contents (push_in z r t) ≡ contents r ++ t ∷ []
  unfolding push_in HasRoom contents
  push_below r t h b = ground (
    arith,
    Arrays.drop-set_lt r.head_pos r.tail_pos t r.ring b,
    written r t (h.1),
    append_assoc (drop r.head_pos r.ring) (take r.tail_pos r.ring) (t ∷ []),
  )

  -- The part up to the tail, with a new element behind it.
  stretched :
      (r : RingBuffer A) (t : A)
      → r.tail_pos < length r.ring
      → r.head_pos ≤ r.tail_pos
      → drop r.head_pos (take (r.tail_pos + 1) (set r.ring r.tail_pos t))
        ≡ drop r.head_pos (take r.tail_pos r.ring) ++ t ∷ []
  stretched r t h b =
      let e : r.tail_pos + 1 ≡ suc r.tail_pos = omega arith in
      rw (e, Arrays.take-set_end r.tail_pos t r.ring h)
        (Arrays.drop-append r.head_pos (take r.tail_pos r.ring) (t ∷ [])
          (omega (arith, length-take r.tail_pos r.ring)))

  whole :
      (r : RingBuffer A) (t : A)
      → r.tail_pos + 1 ≡ length r.ring
      → take (r.tail_pos + 1) (set r.ring r.tail_pos t) ≡ set r.ring r.tail_pos t
  whole r t e =
      rw (e, sym (length-set r.ring r.tail_pos t)) (Arrays.take_all (set r.ring r.tail_pos t))

  push_above :
      (r : RingBuffer A) (t : A)
      → HasRoom r
      → r.head_pos ≤ r.tail_pos
      → contents (push_in z r t) ≡ contents r ++ t ∷ []
  unfolding push_in HasRoom contents
  push_above r t h b = elim (Bool-cases (r.tail_pos + 1 == length r.ring)) [
    | inl e ↦ ground (
      arith,
      stretched r t (h.1) b,
      whole r t (ground arith),
      append-nil (drop r.head_pos (set r.ring r.tail_pos t)),
    )
    | inr e ↦ ground (arith, stretched r t (h.1) b)
  ]

  push_in-contents :
      (r : RingBuffer A) (t : A) → HasRoom r → contents (push_in z r t) ≡ contents r ++ t ∷ []
  push_in-contents r t h = elim (lt-or-le r.tail_pos r.head_pos) [
    | inl b ↦ push_below r t h b
    | inr b ↦ push_above r t h b
  ]

  grow-HasRoom :
      (r : RingBuffer A) → IsValid r → (r.full || length r.ring == 0) ≡ true → HasRoom (grow z r)
  unfolding grow HasRoom
  grow-HasRoom r v f = ground (
    arith,
    length-append (drop r.head_pos r.ring) (
        take r.head_pos r.ring
        ++ replicate ((if length r.ring == 0 then 1 else length r.ring * 2) - length r.ring) z),
    length-append (take r.head_pos r.ring)
        (replicate ((if length r.ring == 0 then 1 else length r.ring * 2) - length r.ring) z),
    length-replicate ((if length r.ring == 0 then 1 else length r.ring * 2) - length r.ring) z,
    Arrays.length-drop r.head_pos r.ring,
    length-take r.head_pos r.ring,
  )

  regrouped :
      (h : ℕ) (xs zs : List A)
      → h ≤ length xs
      → take (length xs) (drop h xs ++ (take h xs ++ zs)) ≡ drop h xs ++ take h xs
  regrouped h xs zs le =
      let n : length xs ≡ length (drop h xs ++ take h xs) =
        omega (
          arith,
          length-append (drop h xs) (take h xs),
          Arrays.length-drop h xs,
          length-take h xs,
        ) in
      rw (sym (append_assoc (drop h xs) (take h xs) zs), n)
        (take_prefix (drop h xs ++ take h xs) zs)

  empty_array :
      (r : RingBuffer A)
      → IsValid r
      → length r.ring ≡ 0
      → (r.head_pos ≡ 0) × (r.tail_pos ≡ 0) × (r.full ≡ false)
  empty_array r v e = ground arith

  full_array :
      (r : RingBuffer A)
      → IsValid r
      → (r.full || length r.ring == 0) ≡ true
      → (length r.ring == 0) ≡ false
      → (r.head_pos ≤ length r.ring) × (r.tail_pos ≡ r.head_pos) × (r.full ≡ true)
  full_array r v f e = (ground arith, ground arith, ground arith)

  grow-contents :
      (r : RingBuffer A)
      → IsValid r
      → (r.full || length r.ring == 0) ≡ true
      → contents (grow z r) ≡ contents r
  unfolding grow contents
  grow-contents r v f = elim (Bool-cases (length r.ring == 0)) [
    | inl e ↦
        let n : length r.ring ≡ 0 = ground arith in
        let d = empty_array r v n in simp (n, d.0, d.1, d.2)
    | inr e ↦
        let d = full_array r v f e in
        rw (e, d.1, d.2)
          (ground (
            arith,
            regrouped r.head_pos r.ring (replicate (length r.ring * 2 - length r.ring) z) (d.0),
          ))
  ]

  pub push_back-IsValid : (r : RingBuffer A) (t : A) → IsValid r → IsValid (push_back z r t)
  unfolding push_back
  push_back-IsValid r t v = elim (Bool-cases (r.full || length r.ring == 0)) [
    | inl e ↦ rw e (push_in-IsValid (grow z r) t (grow-HasRoom r v e))
    | inr e ↦ rw e (push_in-IsValid r t (unfold HasRoom in ground arith))
  ]

  pub push_back-contents :
      (r : RingBuffer A) (t : A) → IsValid r → contents (push_back z r t) ≡ contents r ++ t ∷ []
  unfolding push_back
  push_back-contents r t v = elim (Bool-cases (r.full || length r.ring == 0)) [
    | inl e ↦ rw e (
        push_in-contents (grow z r) t (grow-HasRoom r v e)
        ∙ ap (λ l. l ++ t ∷ []) (grow-contents r v e))
    | inr e ↦ rw e (push_in-contents r t (unfold HasRoom in ground arith))
  ]

  abbrev pub AfterPop : RingBuffer A → Option (A × RingBuffer A) → Type ℓ
  AfterPop r none = contents r ≡ []
  AfterPop r (some (x, r')) = IsValid r' × (contents r ≡ x ∷ contents r')

  pub emptied : (r : RingBuffer A) → IsValid r → is_empty z r ≡ true → contents r ≡ []
  unfolding is_empty
  emptied r v e =
      straight r (ground arith)
      ∙ Arrays.drop_all r.head_pos (take r.tail_pos r.ring)
          (ground (arith, length-take r.tail_pos r.ring))

  unfoldable pub popped : RingBuffer A → RingBuffer A
  popped r = record {
    ring = set r.ring r.head_pos z;
    head_pos = if r.head_pos + 1 == length r.ring then 0 else r.head_pos + 1;
    tail_pos = r.tail_pos;
    full = false;
  }

  popped-IsValid : (r : RingBuffer A) → IsValid r → is_empty z r ≡ false → IsValid (popped r)
  unfolding popped is_empty
  popped-IsValid r v e = ground (arith, length-set r.ring r.head_pos z)

  headed : (i : ℕ) (xs : List A) → i < length xs → drop i xs ≡ get_or xs i z ∷ drop (i + 1) xs
  headed i xs h = let e : i + 1 ≡ suc i = omega arith in rw e (Arrays.drop_get i z xs h)

  pub popped-contents :
      (r : RingBuffer A)
      → IsValid r
      → is_empty z r ≡ false
      → contents r ≡ get_or r.ring r.head_pos z ∷ contents (popped r)
  unfolding popped is_empty contents
  popped-contents r v e = elim (Bool-cases (r.full || ltb r.tail_pos r.head_pos)) [
    | inl w ↦ elim (Bool-cases (r.head_pos + 1 == length r.ring)) [
      | inl l ↦ ground (
        arith,
        Arrays.take-set_ge r.tail_pos r.head_pos z r.ring (ground arith),
        headed r.head_pos r.ring (ground arith),
        Arrays.drop_all (r.head_pos + 1) r.ring (ground arith),
      )
      | inr l ↦
          let lt : ltb r.tail_pos (r.head_pos + 1) ≡ true = ground arith in
          ground (
            arith,
            Arrays.take-set_ge r.tail_pos r.head_pos z r.ring (ground arith),
            headed r.head_pos r.ring (ground arith),
            Arrays.drop-set_lt (r.head_pos + 1) r.head_pos z r.ring (omega arith),
          )
    ]
    | inr w ↦
        let nl : (r.head_pos + 1 == length r.ring) ≡ false = ground arith in
        let lt : ltb r.tail_pos (r.head_pos + 1) ≡ false = ground arith in
        ground (
          arith,
          Arrays.take-set_lt r.tail_pos r.head_pos z r.ring (ground arith),
          Arrays.drop-set_lt (r.head_pos + 1) r.head_pos z (take r.tail_pos r.ring) (omega arith),
          Arrays.get_or-take r.tail_pos r.head_pos z r.ring (ground arith),
          headed r.head_pos (take r.tail_pos r.ring)
              (ground (arith, length-take r.tail_pos r.ring)),
        )
  ]

  pub pop_front-contents : (r : RingBuffer A) → IsValid r → AfterPop r (pop_front z r)
  unfolding pop_front popped
  pop_front-contents r v = elim (Bool-cases (is_empty z r)) [
    | inl e ↦ rw e (emptied r v e)
    | inr e ↦ rw e (popped-IsValid r v e, popped-contents r v e)
  ]
