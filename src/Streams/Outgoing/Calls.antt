-- ===== src/Streams/Outgoing/Calls.antt =====
-- streams_map_outgoing.go: what each call makes of a map.
use x_fec.Base.{
  ℕ, ◌+◌, ◌-◌, ◌≤◌, ◌≡◌, ◌≢◌, ◌∙◌, refl, ap, Bool, true, false, ltb, if◌then◌else◌, Option, none,
  some, Result, ok, err, length, arith, inl, inr, Bool-cases,
}
use x_fec.Base.Dict.{Dict, lookup, has}
use x_fec.Streams.Outgoing.{
  WaitChan, full, closed_chan, OutgoingStreamsMap, OpenError, is_above, is_reached, stream_limit,
  maybe_send_blocked_frame, then_unblock, set_max_stream, cancel, delete_stream,
}
use x_fec.Streams.Outgoing.Queue.{nobody_waits, lookup-without}
use x_fec.Streams.Outgoing.Served.{
  HasNotified, IsQueue, Served, IsValid, without-IsQueue, unblock_open_sync-Served,
}

pub below_limit : (n : ℕ) (l : Option ℕ) → is_above n l ≡ false → n ≤ stream_limit l
below_limit n none e = ground arith
below_limit n (some k) e = ground arith

raised :
    (n num : ℕ) (l : Option ℕ) → n ≤ stream_limit l + 1 → is_reached num l ≡ false → n ≤ num + 1
raised n num none h e = omega arith
raised n num (some k) h e = ground arith

-- A property of both branches, each under its condition.
pub either {ℓ κ} :
    {A : Type ℓ} (P : A → Type κ) (c : Bool) (x y : A)
    → (c ≡ true → P x)
    → (c ≡ false → P y)
    → P (if c then x else y)
either P true x y f g = f refl
either P false x y f g = g refl

pub if_false {ℓ} : {A : Type ℓ} (c : Bool) (x y : A) → c ≡ false → (if c then x else y) ≡ y
if_false true x y e = absurd (ground arith)
if_false false x y e = refl

full_nobody : (k : ℕ) (q : Dict WaitChan) → lookup k q ≡ none → lookup k q ≢ some closed_chan
full_nobody k q e f = ground arith

pub if_true {ℓ} : {A : Type ℓ} (c : Bool) (x y : A) → c ≡ true → (if c then x else y) ≡ x
if_true true x y e = refl
if_true false x y e = absurd (ground arith)

pub not_waiting : (o : Option WaitChan) → (o ≢ none → ⊥) → o ≡ none
not_waiting none n = refl
not_waiting (some c) n = absurd (n λ e. ground arith)

-- A queue with nobody fits any range.
pub idle-IsQueue : (q : Dict WaitChan) (lo hi : ℕ) → length q ≡ 0 → IsQueue q lo hi
idle-IsQueue q lo hi e = record {
  ranged = λ k w. absurd (w (nobody_waits k q e));
  in_front = λ k j f w. absurd (w (nobody_waits j q e));
  all_open = λ k f. full_nobody k q (nobody_waits k q e) f;
}

module _ {T : Type 0} where
  pub blocked-IsValid :
      (m : OutgoingStreamsMap T) → IsValid m → IsValid (maybe_send_blocked_frame m).0
  unfolding maybe_send_blocked_frame
  blocked-IsValid m v = elim (Bool-cases m.blocked_sent) [
    | inl e ↦ simp e v
    | inr e ↦ simp e (record {
      ordered = v.ordered;
      range = v.range;
      started = v.started;
      limited = v.limited;
      served = v.served;
      is_open = v.is_open;
    })
  ]

  -- A queue that was searched makes a map valid.
  pub Served-IsValid :
      (m : OutgoingStreamsMap T) (q : Dict WaitChan)
      → Served m.lowest_in_queue m.highest_in_queue q
      → m.lowest_in_queue ≤ m.highest_in_queue
      → 1 ≤ m.next_stream
      → m.next_stream ≤ stream_limit m.max_stream + 1
      → m.closed ≡ false
      → IsValid (record m { open_queue = q })
  Served-IsValid m q s r f l o = record {
    ordered = s.ordered;
    range = r;
    started = f;
    limited = l;
    served = λ e. s.is_served;
    is_open = o;
  }

  -- The map after a deletion; one that fails changes nothing.
  abbrev pub kept :
      OutgoingStreamsMap T → Result OpenError (OutgoingStreamsMap T) → OutgoingStreamsMap T
  kept m (ok m') = m'
  kept m (err e) = m

  pub delete_stream-IsValid :
      (m : OutgoingStreamsMap T) (num : ℕ) → IsValid m → IsValid (kept m (delete_stream m num))
  unfolding delete_stream
  delete_stream-IsValid m num v = elim (Bool-cases (has num m.streams)) [
    | inl e ↦ simp e (record {
      ordered = v.ordered;
      range = v.range;
      started = v.started;
      limited = v.limited;
      served = v.served;
      is_open = v.is_open;
    })
    | inr e ↦ simp e v
  ]

  pub cancel-IsValid :
      (m : OutgoingStreamsMap T) (pos : ℕ)
      → IsValid m
      → lookup pos m.open_queue ≢ some full
      → IsValid (cancel m pos)
  unfolding cancel
  cancel-IsValid m pos v n = record {
    ordered = without-IsQueue pos m.open_queue m.lowest_in_queue m.highest_in_queue v.ordered;
    range = v.range;
    started = v.started;
    limited = v.limited;
    is_open = v.is_open;
    served = λ e j w.
        let k : HasNotified m.open_queue =
          v.served e j (λ z. w (ground (arith, lookup-without pos j m.open_queue))) in
        let d : pos ≢ k.0 = λ z. n (ap (λ y. lookup y m.open_queue) z ∙ k.1) in
        (k.0, ground (arith, lookup-without pos (k.0) m.open_queue, d, k.1));
  }

  -- The limit is raised; the map with the frame is searched for a call.
  search :
      (m : OutgoingStreamsMap T) (f : Option ℕ)
      → IsQueue m.open_queue m.lowest_in_queue m.highest_in_queue
      → m.lowest_in_queue ≤ m.highest_in_queue
      → 1 ≤ m.next_stream
      → m.next_stream ≤ stream_limit m.max_stream + 1
      → m.closed ≡ false
      → (m' : OutgoingStreamsMap T) × (then_unblock (m, f) ≡ ok (m', f)) × IsValid m'
  search m f v r s l o =
      let u = unblock_open_sync-Served m v in
      (record m { open_queue = u.0 }, simp (u.1) refl, Served-IsValid m (u.0) (u.2) r s l o)

  pub set_max_stream-IsValid :
      (m : OutgoingStreamsMap T) (num : ℕ)
      → IsValid m
      → (m' : OutgoingStreamsMap T) × (f : Option ℕ) × (set_max_stream m num ≡ ok (m', f))
        × IsValid m'
  unfolding set_max_stream maybe_send_blocked_frame
  set_max_stream-IsValid m num v =
      let m1 : OutgoingStreamsMap T = record m { max_stream = some num; blocked_sent = false } in
      let l : is_reached num m.max_stream ≡ false → m.next_stream ≤ num + 1 =
        raised m.next_stream num m.max_stream v.limited in
      elim (Bool-cases (is_reached num m.max_stream)) [
        | inl e ↦ (m, none, simp e refl, v)
        | inr e ↦ elim (Bool-cases (ltb num (m.next_stream - 1 + length m.open_queue))) [
          | inl f ↦
              (let u =
                  search (record m1 { blocked_sent = true }) (some num) v.ordered v.range v.started
                    (l e) v.is_open in
                (u.0, some num, simp (e, f) (u.1), u.2))
          | inr f ↦
              (let u = search m1 none v.ordered v.range v.started (l e) v.is_open in
                (u.0, none, simp (e, f) (u.1), u.2))
        ]
      ]
