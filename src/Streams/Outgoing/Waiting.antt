-- ===== src/Streams/Outgoing/Waiting.antt =====
-- streams_map_outgoing.go: calls of several goroutines on one map, one after the other.
use x_fec.Base.{
  same_value, ℕ, ◌+◌, ◌≤◌, ◌≡◌, ◌≢◌, refl, Bool, false, ◌==◌, ==_iff, Option, none, some, ok, arith,
  inl, inr, Bool-cases,
}
use x_fec.Base.Dict.{lookup}
use x_fec.Streams.Outgoing.{
  full, OutgoingStreamsMap, Answer, is_above, stream_limit, set_max_stream, cancel,
  open_stream_internal, open_stream_sync, wake, delete_stream, new_outgoing_streams_map,
}
use x_fec.Streams.Outgoing.Queue.{IsWaiting, lookup-without}
use x_fec.Streams.Outgoing.Served.{IsValid, full_waits}
use x_fec.Streams.Outgoing.Calls.{
  kept, delete_stream-IsValid, cancel-IsValid, set_max_stream-IsValid,
}
use x_fec.Streams.Outgoing.Opening.{open_stream_internal-IsValid, open_stream_sync-IsValid}
use x_fec.Streams.Outgoing.GoingOn.{first_opens, wake-GoesOn}

module _ {T : Type 0} (new_stream : ℕ → Bool → T) where
  -- The maps that calls on a new one lead to. A call that was notified is not cancelled.
  pub data IsReached : OutgoingStreamsMap T → Type 0 where
    starts : IsReached new_outgoing_streams_map
    opens :
        (m : OutgoingStreamsMap T) (fec : Bool)
        → IsReached m
        → IsReached (open_stream_internal new_stream m fec).1.0
    waits_for :
        (m : OutgoingStreamsMap T) (has_ended fec : Bool)
        → IsReached m
        → IsReached (open_stream_sync new_stream m has_ended fec).1.0
    goes_on :
        (m : OutgoingStreamsMap T) (k : ℕ) (fec : Bool) (a : Answer T)
        → wake new_stream m k fec ≡ ok a
        → IsReached m
        → IsReached a.1.0
    cancels :
        (m : OutgoingStreamsMap T) (k : ℕ)
        → lookup k m.open_queue ≢ some full
        → IsReached m
        → IsReached (cancel m k)
    deletes :
        (m : OutgoingStreamsMap T) (num : ℕ)
        → IsReached m
        → IsReached (kept m (delete_stream m num))
    raises :
        (m m' : OutgoingStreamsMap T) (num : ℕ) (f : Option ℕ)
        → set_max_stream m num ≡ ok (m', f)
        → IsReached m
        → IsReached m'

  IsReached-IsValid : (m : OutgoingStreamsMap T) → IsReached m → IsValid m
  unfolding new_outgoing_streams_map
  IsReached-IsValid m starts = record {
    ordered = record {
      ranged = λ k w. absurd (w refl);
      in_front = λ k j e w. absurd (w refl);
      all_open = λ k e. ground arith;
    };
    range = omega arith;
    started = omega arith;
    limited = omega arith;
    served = λ e j w. absurd (w refl);
    is_open = refl;
  }
  IsReached-IsValid m (opens n fec r) =
      open_stream_internal-IsValid new_stream n fec (IsReached-IsValid n r)
  IsReached-IsValid m (waits_for n h fec r) =
      open_stream_sync-IsValid new_stream n h fec (IsReached-IsValid n r)
  IsReached-IsValid m (goes_on n k fec a e r) =
      (let g = wake-GoesOn new_stream n k fec (IsReached-IsValid n r) in
        same_value (λ (x : Answer T). IsValid x.1.0) (g.0) a (wake new_stream n k fec) (g.1) e
          (g.2))
  IsReached-IsValid m (cancels n k d r) = cancel-IsValid n k (IsReached-IsValid n r) d
  IsReached-IsValid m (deletes n num r) = delete_stream-IsValid n num (IsReached-IsValid n r)
  IsReached-IsValid m (raises n n' num f e r) =
      (let g = set_max_stream-IsValid n num (IsReached-IsValid n r) in
        same_value (λ (x : OutgoingStreamsMap T × Option ℕ). IsValid x.0) (g.0, g.1) (n', f)
          (set_max_stream n num) (g.2) e (g.3))

  -- What a waiting call can rely on.
  pub record Works (m : OutgoingStreamsMap T) : Type 0 where
    pub within_limit : m.next_stream ≤ stream_limit m.max_stream + 1
    pub no_panic : (num : ℕ) → (c : OutgoingStreamsMap T × Option ℕ) × (set_max_stream m num ≡ ok c)
    pub goes_on_safely : (k : ℕ) (fec : Bool) → (a : Answer T) × (wake new_stream m k fec ≡ ok a)
    pub first_served :
        (j : ℕ)
        → IsWaiting j m.open_queue
        → is_above m.next_stream m.max_stream ≡ false
        → (k : ℕ) × (lookup k m.open_queue ≡ some full)
          × ((i : ℕ) → IsWaiting i m.open_queue → k ≤ i)
          × ((fec : Bool)
              → (m' : OutgoingStreamsMap T) × (wake new_stream m k fec
                  ≡ ok (ok (new_stream m.next_stream fec), (m', none))))

  -- As long as no call is cancelled that was notified already, and the map is not closed: the streams that were opened are
  -- within the limit of the peer; neither a new limit nor a waiting call that goes on panics; and when a stream can be opened while
  -- calls wait, the call that waits longest is notified, and gets the next stream when it goes on.
  pub IsReached-Works : (m : OutgoingStreamsMap T) → IsReached m → Works m
  IsReached-Works m r =
      let v : IsValid m = IsReached-IsValid m r in
      record {
        within_limit = v.limited;
        no_panic = λ num. (let g = set_max_stream-IsValid m num v in ((g.0, g.1), g.2));
        goes_on_safely = λ k fec. (let g = wake-GoesOn new_stream m k fec v in (g.0, g.1));
        first_served = λ j w a.
            (let k = v.served a j w in
              (
                k.0,
                k.1,
                (λ i u. v.ordered.in_front (k.0) i (k.1) u),
                (λ fec. (let o = first_opens new_stream m (k.0) fec v (k.1) a in (o.0, o.1))),
              ));
      }

  -- When a stream can be opened and the call that was notified for it is cancelled, every other call goes on
  -- waiting, no call has a notification, and the stream can still be opened.
  pub cancel_loses_wakeup :
      (m : OutgoingStreamsMap T) (k j : ℕ)
      → IsReached m
      → lookup k m.open_queue ≡ some full
      → IsWaiting j m.open_queue
      → j ≢ k
      → is_above m.next_stream m.max_stream ≡ false
      → IsWaiting j (cancel m k).open_queue
        × ((i : ℕ) → lookup i (cancel m k).open_queue ≢ some full)
        × (is_above (cancel m k).next_stream (cancel m k).max_stream ≡ false)
  unfolding cancel
  cancel_loses_wakeup m k j r f w d a =
      let v : IsValid m = IsReached-IsValid m r in
      (
        (λ z. w (ground (arith, lookup-without k j m.open_queue))),
        λ i e. elim (Bool-cases (i == k)) [
          | inl z ↦ ground (arith, (==_iff i k).0 z, lookup-without k i m.open_queue, e)
          | inr z ↦
              (let e' : lookup i m.open_queue ≡ some full =
                  ground (arith, lookup-without k i m.open_queue, e) in
                absurd (
                  ground (
                    arith,
                    v.ordered.in_front i k e' (full_waits k m.open_queue f),
                    v.ordered.in_front k i f (full_waits i m.open_queue e'),
                  )))
        ],
        a,
      )
