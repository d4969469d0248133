-- ===== src/ConnId/Manager/Queue.antt =====
-- conn_id_manager.go: the queue of identifiers, in ascending order of their numbers.
use x_fec.Base.{
  ℕ, ◌+◌, ◌<◌, ◌≤◌, ◌≡◌, List, [], ◌∷◌, ◌++◌, true, false, ltb, leb, ◌==◌, Result, ok, err, ◌>>=◌,
  inl, inr, arith, length, Bool-cases, length-append,
}
use x_fec.ConnId.Manager.{
  NewConnId, ConnIdError, connection_id_limit, conflicting_connection_ids, conflicting_reset_tokens,
  no_element, not_initial, check_same, insert_in_middle, goes_to_back, add_connection_id,
  retire_queued, same_bytes,
}

-- Numbers above `b`, ascending.
abbrev pub Ascends : ℕ → List NewConnId → Type 0
Ascends b [] = Unit
Ascends b (x ∷ xs) = (b < x.sequence_number) × Ascends x.sequence_number xs

-- A conflict that the peer caused.
abbrev pub IsConflict : ConnIdError → Type 0
IsConflict conflicting_connection_ids = Unit
IsConflict conflicting_reset_tokens = Unit
IsConflict connection_id_limit = ⊥
IsConflict no_element = ⊥
IsConflict not_initial = ⊥

-- A queue after an insertion: ascending still, not empty, and longer by at most one.
abbrev pub Inserted : ℕ → List NewConnId → Result ConnIdError (List NewConnId) → Type 0
Inserted b q (ok r) = Ascends b r × (1 ≤ length r) × (length r ≤ length q + 1)
Inserted b q (err e) = IsConflict e

below_new :
    (x : NewConnId) (q : List NewConnId) (seq : ℕ)
    → Ascends x.sequence_number q
    → goes_to_back seq (x ∷ q) ≡ true
    → x.sequence_number < seq
unfolding goes_to_back
below_new x [] seq a g = ground arith
below_new x (y ∷ q) seq (k, a) g = omega (arith, below_new y q seq a g, k)

back-Ascends :
    (b : ℕ) (n : NewConnId) (q : List NewConnId)
    → Ascends b q
    → b < n.sequence_number
    → goes_to_back n.sequence_number q ≡ true
    → Ascends b (q ++ n ∷ [])
unfolding goes_to_back
back-Ascends b n [] a h g = (h, tt)
back-Ascends b n (x ∷ []) (k, a) h g = (k, (ground arith, tt))
back-Ascends b n (x ∷ y ∷ q) (k, a) h g =
    (k, back-Ascends x.sequence_number n (y ∷ q) a (below_new x (y ∷ q) n.sequence_number a g) g)

same-Inserted :
    (b : ℕ) (el n : NewConnId) (rest : List NewConnId)
    → Ascends b (el ∷ rest)
    → Inserted b (el ∷ rest) (check_same el n rest)
unfolding check_same
same-Inserted b el n rest a = elim (Bool-cases (same_bytes el.connection_id n.connection_id)) [
  | inr e ↦ rw e tt
  | inl e ↦ elim (Bool-cases (same_bytes el.stateless_reset_token n.stateless_reset_token)) [
    | inr f ↦ rw (e, f) tt
    | inl f ↦ rw (e, f) (a, omega arith, omega arith)
  ]
]

further-Inserted :
    (b : ℕ) (el : NewConnId) (rest : List NewConnId) (r : Result ConnIdError (List NewConnId))
    → b < el.sequence_number
    → Inserted el.sequence_number rest r
    → Inserted b (el ∷ rest) (r >>= λ q. ok (el ∷ q))
further-Inserted b el rest (ok r) k i = ((k, i.0), omega arith, omega (arith, i.2))
further-Inserted b el rest (err e) k i = i

-- The element with the number, and the place in front of the first higher number.
at_element :
    (b : ℕ) (n el : NewConnId) (rest : List NewConnId)
    → Ascends b (el ∷ rest)
    → b < n.sequence_number
    → (el.sequence_number < n.sequence_number
        → Inserted el.sequence_number rest (insert_in_middle n rest))
    → Inserted b (el ∷ rest) (insert_in_middle n (el ∷ rest))
unfolding insert_in_middle
at_element b n el rest (k, a) h f = elim (Bool-cases (el.sequence_number == n.sequence_number)) [
  | inl e ↦ rw e (same-Inserted b el n rest (k, a))
  | inr e ↦ elim (Bool-cases (ltb n.sequence_number el.sequence_number)) [
    | inl l ↦ rw (e, l) ((h, (ground arith, a)), omega arith, omega arith)
    | inr l ↦ rw (e, l) (further-Inserted b el rest (insert_in_middle n rest) k (f (ground arith)))
  ]
]

middle-Inserted :
    (b : ℕ) (n : NewConnId) (q : List NewConnId)
    → Ascends b q
    → b < n.sequence_number
    → goes_to_back n.sequence_number q ≡ false
    → Inserted b q (insert_in_middle n q)
unfolding goes_to_back
middle-Inserted b n [] a h g = absurd (cc)
middle-Inserted b n (el ∷ []) a h g = at_element b n el [] a h (λ l. absurd (ground arith))
middle-Inserted b n (el ∷ y ∷ rest) a h g =
    at_element b n el (y ∷ rest) a h (λ l. middle-Inserted el.sequence_number n (y ∷ rest) a.1 l g)

pub add_connection_id-Inserted :
    (b : ℕ) (n : NewConnId) (q : List NewConnId)
    → Ascends b q
    → b < n.sequence_number
    → Inserted b q (add_connection_id n q)
unfolding add_connection_id
add_connection_id-Inserted b n q a h = elim (Bool-cases (goes_to_back n.sequence_number q)) [
  | inl e ↦ rw e (
    back-Ascends b n q a h e,
    omega (arith, length-append q (n ∷ [])),
    omega (arith, length-append q (n ∷ [])),
  )
  | inr e ↦ rw e (middle-Inserted b n q a h e)
]

pub lower : (b c : ℕ) (q : List NewConnId) → b ≤ c → Ascends c q → Ascends b q
lower b c [] h a = tt
lower b c (x ∷ q) h (k, a) = (omega arith, a)

-- What is left after the low numbers are retired ascends above any bound up to the limit.
pub retire_queued-Ascends :
    (prior b : ℕ) (q : List NewConnId)
    → Ascends b q
    → Ascends b (retire_queued prior q).1
      × (length (retire_queued prior q).1 ≤ length q)
      × ((c : ℕ) → c < prior → Ascends c (retire_queued prior q).1)
unfolding retire_queued
retire_queued-Ascends prior b [] a = (tt, omega arith, λ c l. tt)
retire_queued-Ascends prior b (x ∷ q) (k, a) =
    let i = retire_queued-Ascends prior x.sequence_number q a in
    elim (Bool-cases (leb prior x.sequence_number)) [
      | inl e ↦ rw e ((k, a), omega arith, λ c l. (ground arith, a))
      | inr e ↦ rw e (
        lower b x.sequence_number (retire_queued prior q).1 (omega arith) i.0,
        omega (arith, i.1),
        i.2,
      )
    ]
