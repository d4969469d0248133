-- ===== src/ConnId/Manager/Safety.antt =====
-- conn_id_manager.go: the invariant of the manager, and its panics.
use x_fec.Base.{
  ℕ, ◌+◌, ◌-◌, ◌<◌, ◌≤◌, ◌≡◌, refl, subst, List, [], ◌∷◌, ltb, leb, ◌==◌, ◌||◌, ok, err, ◌⊎◌, inl,
  inr, arith, length, Bool-cases, Result-cases,
}
use x_fec.Wire.Connection.{NewConnectionIdFrame}
use x_fec.ConnId.Manager.{
  NewConnId, ConnIdManager, ConnIdError, connection_id_limit, Effect, Changed, new_conn_id_manager,
  max_active_connection_ids, add_connection_id, retire_queued, update_connection_id, with_effects,
  of_frame, add_new, add_frame, limited, add, get, sent_packet, set_handshake_complete,
  should_update_conn_id,
}
use x_fec.ConnId.Manager.Queue.{
  lower, Ascends, Inserted, IsConflict, add_connection_id-Inserted, retire_queued-Ascends,
}

-- The numbers in the queue ascend above the active one, and none that was retired is active.
abbrev pub IsOrdered : ConnIdManager → Type 0
IsOrdered h =
    Ascends h.active_sequence_number h.queue × (h.highest_retired ≤ h.active_sequence_number)

abbrev pub IsValid : ConnIdManager → Type 0
IsValid h = IsOrdered h × (length h.queue < max_active_connection_ids)

-- An error that the peer caused, and no panic.
abbrev pub IsPeerError : ConnIdError → Type 0
IsPeerError e = IsConflict e ⊎ (e ≡ connection_id_limit)

abbrev pub Keeps : (ConnIdManager → Type 0) → Changed → Type 0
Keeps P (ok (h, es)) = P h
Keeps P (err e) = IsPeerError e

limited-Keeps : (r : Changed) → Keeps IsOrdered r → Keeps IsValid (limited r)
limited-Keeps (err e) k = k
limited-Keeps (ok (h, es)) k = elim (Bool-cases (leb max_active_connection_ids (length h.queue))) [
  | inl e ↦ rw e (inr refl)
  | inr e ↦ rw e (k, ground arith)
]

with_effects-Keeps :
    (es : List Effect) (r : Changed) → Keeps IsOrdered r → Keeps IsOrdered (with_effects es r)
with_effects-Keeps es (err e) k = k
with_effects-Keeps es (ok (h, fs)) k = k

-- A change to the front of a queue that is not empty.
update-Keeps :
    (draw : ℕ) (h : ConnIdManager) (q : List NewConnId)
    → h.queue ≡ q
    → Ascends h.active_sequence_number q
    → Ascends (h.highest_retired - 1) q
    → 1 ≤ length q
    → Keeps (λ h'. IsOrdered h' × (length h'.queue + 1 ≡ length q)) (update_connection_id draw h)
unfolding update_connection_id
update-Keeps draw h [] e a b l = absurd (omega arith)
update-Keeps draw h (x ∷ q) e (k, a) (m, b) l = rw e ((a, omega arith), omega arith)

weaker :
    (r : Changed) (n : ℕ)
    → Keeps (λ h'. IsOrdered h' × (length h'.queue + 1 ≡ n)) r
    → Keeps IsOrdered r
weaker (err e) n k = k
weaker (ok (h, es)) n k = k.0

new-Keeps :
    (draw : ℕ) (f : NewConnectionIdFrame) (h : ConnIdManager)
    → Ascends h.active_sequence_number h.queue
    → Ascends (h.highest_retired - 1) h.queue
    → h.active_sequence_number < f.sequence_number
    → h.highest_retired ≤ f.sequence_number
    → (h.highest_retired ≤ h.active_sequence_number)
      ⊎ (h.active_sequence_number < f.retire_prior_to)
    → Keeps IsOrdered (add_new draw f h)
unfolding add_new of_frame
new-Keeps draw f h a b l m o = elim (Result-cases (add_connection_id (of_frame f) h.queue)) [
  | inr (e, p) ↦
      let i =
        subst (Inserted h.active_sequence_number h.queue) p
          (add_connection_id-Inserted h.active_sequence_number (of_frame f) h.queue a l) in
      rw p (inl i)
  | inl (q, p) ↦
      let i =
        subst (Inserted h.active_sequence_number h.queue) p
          (add_connection_id-Inserted h.active_sequence_number (of_frame f) h.queue a l) in
      let j =
        subst (Inserted (h.highest_retired - 1) h.queue) p (
          add_connection_id-Inserted (h.highest_retired - 1) (of_frame f) h.queue b
            (omega arith)) in
      elim (Bool-cases (ltb h.active_sequence_number f.retire_prior_to)) [
        | inl e ↦
            rw (p, e)
              (weaker (update_connection_id draw (record h { queue = q })) (length q)
                (update-Keeps draw (record h { queue = q }) q refl (i.0) (j.0) (i.1)))
        | inr e ↦ rw (p, e) (i.0, ground arith)
      ]
]

-- What the peer's frame says: its parser has checked that it retires none above its own number.
abbrev pub IsParsed : NewConnectionIdFrame → Type 0
IsParsed f = f.retire_prior_to ≤ f.sequence_number

frame-Keeps :
    (draw : ℕ) (f : NewConnectionIdFrame) (h : ConnIdManager)
    → IsOrdered h
    → IsParsed f
    → Keeps IsOrdered (add_frame draw f h)
unfolding add_frame
frame-Keeps draw f h v w =
    let r = retire_queued f.retire_prior_to h.queue in
    let t = retire_queued-Ascends f.retire_prior_to h.active_sequence_number h.queue (v.0) in
    elim (Bool-cases
      (ltb f.sequence_number h.active_sequence_number || ltb f.sequence_number h.highest_retired)) [
        | inl e ↦ rw e v
        | inr e ↦ elim (Bool-cases (ltb h.highest_retired f.retire_prior_to)) [
          | inl g ↦
              let h1 : ConnIdManager = record h {
                queue = r.1;
                highest_retired = f.retire_prior_to;
              } in
              elim (Bool-cases (f.sequence_number == h.active_sequence_number)) [
                | inl q ↦ rw (e, g, q) (t.0, ground arith)
                | inr q ↦
                    rw (e, g, q)
                      (with_effects-Keeps r.0 (add_new draw f h1) (
                        new-Keeps draw f h1 (t.0) (t.2 (f.retire_prior_to - 1) (ground arith))
                          (ground arith) w (ground arith)))
              ]
          | inr g ↦ elim (Bool-cases (f.sequence_number == h.active_sequence_number)) [
            | inl q ↦ rw (e, g, q) v
            | inr q ↦
                rw (e, g, q)
                  (with_effects-Keeps [] (add_new draw f h) (
                    new-Keeps draw f h (v.0)
                      (lower (h.highest_retired - 1) h.active_sequence_number h.queue
                        (omega (arith, v.1)) (v.0))
                      (ground arith) (ground arith) (inl (v.1))))
          ]
        ]
      ]

pub add-Keeps :
    (draw : ℕ) (f : NewConnectionIdFrame) (h : ConnIdManager)
    → IsValid h
    → IsParsed f
    → Keeps IsValid (add draw f h)
unfolding add
add-Keeps draw f h v w = limited-Keeps (add_frame draw f h) (frame-Keeps draw f h (v.0) w)

ordered_limited :
    (n : ℕ) (r : Changed)
    → n ≤ max_active_connection_ids
    → Keeps (λ h'. IsOrdered h' × (length h'.queue + 1 ≡ n)) r
    → Keeps IsValid r
ordered_limited n (ok (h, es)) l k = (k.0, omega (arith, k.1))
ordered_limited n (err e) l k = k

get-Keeps : (draw : ℕ) (h : ConnIdManager) → IsValid h → Keeps IsValid (get draw h)
unfolding get
get-Keeps draw h v = elim (Bool-cases (should_update_conn_id h)) [
  | inl e ↦ rw e (
      ordered_limited (length h.queue) (update_connection_id draw h) (omega (arith, v.1)) (
        update-Keeps draw h h.queue refl (v.0.0)
          (lower (h.highest_retired - 1) h.active_sequence_number h.queue (omega (arith, v.0.1))
            (v.0.0))
          (unfold should_update_conn_id in ground arith)))
  | inr e ↦ rw e v
]

-- What a connection does with the manager: a frame arrives, an identifier is asked for, a packet is sent,
-- the handshake ends. The random numbers that may be drawn stand with the first two.
pub data Event : Type 0 where
  arrives : ℕ → (f : NewConnectionIdFrame) → IsParsed f → Event
  asks : ℕ → Event
  sends completes : Event

unfoldable pub happens : ConnIdManager → Event → Changed
happens h (arrives draw f w) = add draw f h
happens h (asks draw) = get draw h
happens h sends = ok (sent_packet h, [])
happens h completes = ok (set_handshake_complete h, [])

happens-Keeps : (h : ConnIdManager) (x : Event) → IsValid h → Keeps IsValid (happens h x)
unfolding happens sent_packet set_handshake_complete
happens-Keeps h (arrives draw f w) v = add-Keeps draw f h v w
happens-Keeps h (asks draw) v = get-Keeps draw h v
happens-Keeps h sends v = v
happens-Keeps h completes v = v

abbrev pub then_all : (ConnIdManager → Changed) → Changed → Changed
then_all next (ok (h, es)) = with_effects es (next h)
then_all next (err e) = err e

-- A row of events, up to the first error, with all effects.
unfoldable pub run : List Event → ConnIdManager → Changed
run [] h = ok (h, [])
run (x ∷ xs) h = then_all (run xs) (happens h x)

effects-Keeps :
    (es : List Effect) (r : Changed) → Keeps IsValid r → Keeps IsValid (with_effects es r)
effects-Keeps es (err e) k = k
effects-Keeps es (ok (h, fs)) k = k

then-Keeps :
    (next : ConnIdManager → Changed) (r : Changed)
    → ((h : ConnIdManager) → IsValid h → Keeps IsValid (next h))
    → Keeps IsValid r
    → Keeps IsValid (then_all next r)
then-Keeps next (ok (h, es)) n k = effects-Keeps es (next h) (n h k)
then-Keeps next (err e) n k = k

run_from : (xs : List Event) (h : ConnIdManager) → IsValid h → Keeps IsValid (run xs h)
unfolding run
run_from [] h v = v
run_from (x ∷ xs) h v =
    then-Keeps (run xs) (happens h x) (λ h'. run_from xs h') (happens-Keeps h x v)

-- From a new manager, through any frames whose parser has checked them, any requests and any packets: the
-- queue is never asked for an element that it does not have; the only errors are those that the peer causes, by
-- a conflict or by too many identifiers; and otherwise fewer than four identifiers are queued, in strictly ascending
-- order above the active one, and the active one is not below any that was retired.
pub run-Keeps : (id : List ℕ) (xs : List Event) → Keeps IsValid (run xs (new_conn_id_manager id))
run-Keeps id xs = run_from xs (new_conn_id_manager id) ((tt, omega arith), omega arith)
