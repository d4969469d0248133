-- ===== src/Streams/Outgoing/GoingOn.antt =====
-- streams_map_outgoing.go: a call that waited goes on.
use x_fec.Base.{
  ℕ, ◌+◌, ◌<◌, ◌≡◌, ◌∙◌, refl, ap, Bool, false, Option, none, some, Result, ok, ◌>>=◌, arith, inl,
  inr, Bool-cases,
}
use x_fec.Base.Dict.{insert, lookup}
use x_fec.Base.Keys.{without}
use x_fec.Streams.Outgoing.{
  WaitChan, empty, full, closed_chan, OutgoingStreamsMap, Panic, Answer, is_above, open_stream,
  woken, wake_from, wake,
}
use x_fec.Streams.Outgoing.Served.{
  IsValid, full_waits, taken-IsQueue, left-IsQueue, unblock_open_sync-Served,
}
use x_fec.Streams.Outgoing.Calls.{below_limit, if_false, if_true, not_waiting, Served-IsValid}

module _ {T : Type 0} (new_stream : ℕ → Bool → T) where
  -- What a call that goes on leads to: no panic.
  abbrev pub GoesOn : Result Panic (Answer T) → Type 0
  GoesOn r = (a : Answer T) × (r ≡ ok a) × IsValid a.1.0

  woken_opens :
      (m : OutgoingStreamsMap T) (k : ℕ) (fec : Bool)
      → IsValid m
      → lookup k m.open_queue ≡ some full
      → is_above m.next_stream m.max_stream ≡ false
      → (m' : OutgoingStreamsMap T) × (woken new_stream
            (record m { open_queue = insert k empty m.open_queue })
            k
            fec
          ≡ ok (ok (new_stream m.next_stream fec), (m', none)))
        × (lookup k m'.open_queue ≡ none)
        × IsValid m'
  unfolding woken open_stream
  woken_opens m k fec v f a =
      let s : T = new_stream m.next_stream fec in
      let m1 : OutgoingStreamsMap T = record m {
        streams = insert m.next_stream s m.streams;
        next_stream = m.next_stream + 1;
        open_queue = without k (insert k empty m.open_queue);
        lowest_in_queue = k + 1;
      } in
      let u =
        unblock_open_sync-Served m1
          (left-IsQueue k m.open_queue m.lowest_in_queue m.highest_in_queue v.ordered f) in
      let r : k < m.highest_in_queue = (v.ordered.ranged k (full_waits k m.open_queue f)).1 in
      (
        record m1 { open_queue = u.0 },
        if_false m.closed _ _ v.is_open
            ∙ (if_false (is_above m.next_stream m.max_stream) _ _ a
                ∙ ap
                    (λ (x : Result Panic (OutgoingStreamsMap T)). x >>= λ m2. ok (ok s, (m2, none)))
                    (u.1)),
        not_waiting (lookup k (u.0)) (λ w. omega (arith, (u.2.ordered.ranged k w).0)),
        Served-IsValid m1 (u.0) (u.2) (omega (arith, r)) (omega arith)
            (omega (arith, below_limit m.next_stream m.max_stream a)) v.is_open,
      )

  -- The first call in the queue has its notification, and there is a stream for it.
  pub first_opens :
      (m : OutgoingStreamsMap T) (k : ℕ) (fec : Bool)
      → IsValid m
      → lookup k m.open_queue ≡ some full
      → is_above m.next_stream m.max_stream ≡ false
      → (m' : OutgoingStreamsMap T) × (wake new_stream m k fec
          ≡ ok (ok (new_stream m.next_stream fec), (m', none)))
        × (lookup k m'.open_queue ≡ none)
        × IsValid m'
  unfolding wake wake_from
  first_opens m k fec v f a =
      let w = woken_opens m k fec v f a in
      (w.0, ap (wake_from new_stream m k fec) f ∙ w.1, w.2, w.3)

  wake_from-GoesOn :
      (m : OutgoingStreamsMap T) (k : ℕ) (fec : Bool) (c : Option WaitChan)
      → IsValid m
      → lookup k m.open_queue ≡ c
      → GoesOn (wake_from new_stream m k fec c)
  unfolding wake_from woken
  wake_from-GoesOn m k fec none v e = (_, refl, v)
  wake_from-GoesOn m k fec (some empty) v e = (_, refl, v)
  wake_from-GoesOn m k fec (some closed_chan) v e = absurd (v.ordered.all_open k e)
  wake_from-GoesOn m k fec (some full) v e =
      elim (Bool-cases (is_above m.next_stream m.max_stream)) [
        | inl a ↦ (
          _,
          if_false m.closed _ _ v.is_open ∙ if_true (is_above m.next_stream m.max_stream) _ _ a,
          record {
            ordered = taken-IsQueue k m.open_queue m.lowest_in_queue m.highest_in_queue v.ordered e;
            range = v.range;
            started = v.started;
            limited = v.limited;
            is_open = v.is_open;
            served = λ b. absurd (ground arith);
          },
        )
        | inr a ↦ (let w = woken_opens m k fec v e a in (_, w.1, w.3))
      ]

  pub wake-GoesOn :
      (m : OutgoingStreamsMap T) (k : ℕ) (fec : Bool) → IsValid m → GoesOn (wake new_stream m k fec)
  unfolding wake
  wake-GoesOn m k fec v = wake_from-GoesOn m k fec (lookup k m.open_queue) v refl
