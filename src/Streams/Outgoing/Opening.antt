-- ===== src/Streams/Outgoing/Opening.antt =====
-- streams_map_outgoing.go: opening a stream, or waiting for one.
use x_fec.Base.{
  ℕ, ◌+◌, ◌<◌, ◌≤◌, ◌≡◌, Bool, false, ◌==◌, ◌&&◌, ◌||◌, not, ==_iff, if◌then◌else◌, length, arith,
}
use x_fec.Base.Dict.{insert, lookup-insert}
use x_fec.Streams.Outgoing.{
  empty, OutgoingStreamsMap, Answer, is_above, open_stream, open_stream_internal, open_stream_sync,
}
use x_fec.Streams.Outgoing.Queue.{nobody_waits, somebody_waits}
use x_fec.Streams.Outgoing.Served.{HasNotified, IsQueue, IsValid, full_waits, enqueued-IsQueue}
use x_fec.Streams.Outgoing.Calls.{below_limit, either, idle-IsQueue, blocked-IsValid}

module _ {T : Type 0} (new_stream : ℕ → Bool → T) where
  opened-IsValid :
      (m : OutgoingStreamsMap T) (fec : Bool)
      → IsValid m
      → is_above m.next_stream m.max_stream ≡ false
      → length m.open_queue ≡ 0
      → IsValid (open_stream new_stream m fec).1
  unfolding open_stream
  opened-IsValid m fec v a e = record {
    ordered = v.ordered;
    range = v.range;
    started = omega arith;
    is_open = v.is_open;
    limited = omega (arith, below_limit m.next_stream m.max_stream a);
    served = λ b j w. absurd (w (nobody_waits j m.open_queue e));
  }

  pub open_stream_internal-IsValid :
      (m : OutgoingStreamsMap T) (fec : Bool)
      → IsValid m
      → IsValid (open_stream_internal new_stream m fec).1.0
  unfolding open_stream_internal
  open_stream_internal-IsValid m fec v =
      either (λ (r : Answer T). IsValid r.1.0) m.closed _ _ (λ c. v)
        λ c.
          either (λ (r : Answer T). IsValid r.1.0)
            (not (length m.open_queue == 0) || is_above m.next_stream m.max_stream) _ _
            (λ e. blocked-IsValid m v) λ e. opened-IsValid m fec v (ground arith) (ground arith)

  queued-IsValid :
      (m : OutgoingStreamsMap T)
      → IsValid m
      → (length m.open_queue == 0 && not (is_above m.next_stream m.max_stream)) ≡ false
      → IsValid (record m {
        highest_in_queue = m.highest_in_queue + 1;
        lowest_in_queue =
            if length m.open_queue == 0 then m.highest_in_queue else m.lowest_in_queue;
        open_queue = insert m.highest_in_queue empty m.open_queue;
      })
  queued-IsValid m v e =
      let lo : ℕ = if length m.open_queue == 0 then m.highest_in_queue else m.lowest_in_queue in
      let l : lo ≤ m.highest_in_queue =
        either (λ x. x ≤ m.highest_in_queue) (length m.open_queue == 0) _ _ (λ z. omega arith)
          λ z. v.range in
      let o : IsQueue m.open_queue lo m.highest_in_queue =
        either (λ x. IsQueue m.open_queue x m.highest_in_queue) (length m.open_queue == 0) _ _
          (λ z.
            idle-IsQueue m.open_queue m.highest_in_queue m.highest_in_queue
              ((==_iff (length m.open_queue) 0).0 z))
          λ z. v.ordered in
      record {
        ordered = enqueued-IsQueue m.open_queue lo m.highest_in_queue o l;
        range = omega (arith, l);
        started = v.started;
        limited = v.limited;
        is_open = v.is_open;
        served = λ a j w.
            let k : HasNotified m.open_queue =
              (let x = somebody_waits m.open_queue (ground arith) in v.served a (x.0) (x.1)) in
            let d : k.0 < m.highest_in_queue =
              (v.ordered.ranged (k.0) (full_waits (k.0) m.open_queue (k.1))).1 in
            (
              k.0,
              ground (arith, lookup-insert m.highest_in_queue (k.0) empty m.open_queue, d, k.1),
            );
      }

  pub open_stream_sync-IsValid :
      (m : OutgoingStreamsMap T) (has_ended fec : Bool)
      → IsValid m
      → IsValid (open_stream_sync new_stream m has_ended fec).1.0
  unfolding open_stream_sync
  open_stream_sync-IsValid m has_ended fec v =
      let queued : OutgoingStreamsMap T = record m {
        highest_in_queue = m.highest_in_queue + 1;
        lowest_in_queue =
            if length m.open_queue == 0 then m.highest_in_queue else m.lowest_in_queue;
        open_queue = insert m.highest_in_queue empty m.open_queue;
      } in
      let P : Answer T → Type 0 = λ r. IsValid r.1.0 in
      either P m.closed _ _ (λ c. v)
        λ c.
          either P has_ended _ _ (λ h. v)
            λ h.
              either P (length m.open_queue == 0 && not (is_above m.next_stream m.max_stream)) _ _
                (λ e. opened-IsValid m fec v (ground arith) (ground arith))
                λ e. blocked-IsValid queued (queued-IsValid m v e)
