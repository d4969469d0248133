-- ===== src/Streams/Outgoing.antt =====
-- streams_map_outgoing.go: the streams that this side opens. The streams are of any type, and how one is made
-- is a parameter. A call of `OpenStreamSync` that waits is an entry of the queue: its channel holds a
-- notification, or none, or is closed, and what the call does when it goes on is `wake` and `cancel`. A
-- STREAMS_BLOCKED frame that is queued is returned with its limit. Mutexes and the streams' own calls are not
-- modelled.
pub mod Queue
pub mod Served
pub mod Calls
pub mod Opening
pub mod GoingOn
pub mod Waiting
pub mod Tests
use x_fec.Base.{
  ℕ, zero, suc, ◌+◌, ◌-◌, List, [], ◌∷◌, Bool, true, false, ltb, leb, ◌==◌, ◌&&◌, ◌||◌, not,
  if◌then◌else◌, Option, none, some, Result, ok, err, ◌>>=◌, length,
}
use x_fec.Base.Dict.{Dict, insert, lookup, has}
use x_fec.Base.Keys.{without}

-- A channel with room for one notification.
pub data WaitChan : Type 0 where
  empty full closed_chan : WaitChan

pub record OutgoingStreamsMap {ℓ} (T : Type ℓ) : Type ℓ where
  pub streams : Dict T
  pub open_queue : Dict WaitChan
  pub lowest_in_queue : ℕ
  pub highest_in_queue : ℕ
  pub next_stream : ℕ
  -- The invalid stream number is `none`.
  pub max_stream : Option ℕ
  pub blocked_sent : Bool
  pub closed : Bool

pub data OpenError : Type 0 where
  map_closed too_many_open_streams cancelled not_opened unknown_stream : OpenError
  -- The call waits, at this place of the queue.
  waits : ℕ → OpenError

pub data Panic : Type 0 where
  send_on_closed_channel : Panic

-- The map with the frame that is queued, and the answer of a call that opens a stream.
abbrev pub Changed {ℓ} : Type ℓ → Type ℓ
Changed T = OutgoingStreamsMap T × Option ℕ

abbrev pub Answer {ℓ} : Type ℓ → Type ℓ
Answer T = Result OpenError T × Changed T

-- Whether a stream number is above the limit, and whether a limit is no higher than the present one.
abbrev pub is_above : ℕ → Option ℕ → Bool
is_above num none = true
is_above num (some n) = ltb n num

abbrev pub is_reached : ℕ → Option ℕ → Bool
is_reached num none = false
is_reached num (some n) = leb num n

abbrev pub stream_limit : Option ℕ → ℕ
stream_limit none = 0
stream_limit (some n) = n

-- One round of the loop: the call at a place is notified, or the next places are tried.
abbrev pub notify :
    ℕ
    → Dict WaitChan
    → Option WaitChan
    → Result Panic (Dict WaitChan)
    → Result Panic (Dict WaitChan)
notify qp q none further = further
notify qp q (some empty) further = ok (insert qp full q)
notify qp q (some full) further = ok q
notify qp q (some closed_chan) further = err send_on_closed_channel

unfoldable pub unblock_from : ℕ → ℕ → Dict WaitChan → Result Panic (Dict WaitChan)
unblock_from zero qp q = ok q
unblock_from (suc n) qp q = notify qp q (lookup qp q) (unblock_from n (qp + 1) q)

abbrev pub close_channels : Dict WaitChan → Dict WaitChan
close_channels [] = []
close_channels ((k, c) ∷ q) = (k, closed_chan) ∷ close_channels q

module _ {ℓ} {T : Type ℓ} where
  unfoldable pub new_outgoing_streams_map : OutgoingStreamsMap T
  new_outgoing_streams_map = record {
    streams = [];
    open_queue = [];
    lowest_in_queue = 0;
    highest_in_queue = 0;
    next_stream = 1;
    max_stream = none;
    blocked_sent = false;
    closed = false;
  }

  unfoldable pub maybe_send_blocked_frame : OutgoingStreamsMap T → Changed T
  maybe_send_blocked_frame m =
      if m.blocked_sent
      then (m, none)
      else (record m { blocked_sent = true }, some (stream_limit m.max_stream))

  unfoldable pub unblock_open_sync : OutgoingStreamsMap T → Result Panic (OutgoingStreamsMap T)
  unfolding unblock_from
  unblock_open_sync m =
      if length m.open_queue == 0
      then ok m
      else (unblock_from (m.highest_in_queue + 1 - m.lowest_in_queue) m.lowest_in_queue m.open_queue
          >>= λ q. ok (record m { open_queue = q }))

  unfoldable pub get_stream : OutgoingStreamsMap T → ℕ → Result OpenError (Option T)
  get_stream m num = if leb m.next_stream num then err not_opened else ok (lookup num m.streams)

  unfoldable pub delete_stream : OutgoingStreamsMap T → ℕ → Result OpenError (OutgoingStreamsMap T)
  delete_stream m num =
      if has num m.streams
      then ok (record m { streams = without num m.streams })
      else err unknown_stream

  -- With the frame that may be queued, the next call is notified.
  abbrev pub then_unblock : Changed T → Result Panic (Changed T)
  then_unblock c = unblock_open_sync c.0 >>= λ m. ok (m, c.1)

  unfoldable pub set_max_stream : OutgoingStreamsMap T → ℕ → Result Panic (Changed T)
  unfolding unblock_open_sync maybe_send_blocked_frame
  set_max_stream m num =
      let m1 : OutgoingStreamsMap T = record m { max_stream = some num; blocked_sent = false } in
      let more : Bool = ltb num (m.next_stream - 1 + length m.open_queue) in
      if is_reached num m.max_stream
      then ok (m, none)
      else then_unblock (if more then maybe_send_blocked_frame m1 else (m1, none))

  unfoldable pub close_with_error : OutgoingStreamsMap T → OutgoingStreamsMap T
  close_with_error m = record m { open_queue = close_channels m.open_queue; closed = true }

  -- The context of a call that waits has ended.
  unfoldable pub cancel : OutgoingStreamsMap T → ℕ → OutgoingStreamsMap T
  cancel m pos = record m { open_queue = without pos m.open_queue }

  module _ (new_stream : ℕ → Bool → T) where
    unfoldable pub open_stream : OutgoingStreamsMap T → Bool → T × OutgoingStreamsMap T
    open_stream m fec_protected =
        let s : T = new_stream m.next_stream fec_protected in
        (
          s,
          record m { streams = insert m.next_stream s m.streams; next_stream = m.next_stream + 1 },
        )

    unfoldable pub open_stream_internal : OutgoingStreamsMap T → Bool → Answer T
    unfolding open_stream maybe_send_blocked_frame
    open_stream_internal m fec_protected =
        if m.closed
        then (err map_closed, (m, none))
        else if not (length m.open_queue == 0) || is_above m.next_stream m.max_stream
        then (err too_many_open_streams, maybe_send_blocked_frame m)
        else (ok (open_stream m fec_protected).0, ((open_stream m fec_protected).1, none))

    -- A call up to where it waits, with whether its context has ended before.
    unfoldable pub open_stream_sync : OutgoingStreamsMap T → Bool → Bool → Answer T
    unfolding open_stream maybe_send_blocked_frame
    open_stream_sync m has_ended fec_protected =
        let pos : ℕ = m.highest_in_queue in
        let queued : OutgoingStreamsMap T = record m {
          highest_in_queue = pos + 1;
          lowest_in_queue = if length m.open_queue == 0 then pos else m.lowest_in_queue;
          open_queue = insert pos empty m.open_queue;
        } in
        if m.closed
        then (err map_closed, (m, none))
        else if has_ended
        then (err cancelled, (m, none))
        else if length m.open_queue == 0 && not (is_above m.next_stream m.max_stream)
        then (ok (open_stream m fec_protected).0, ((open_stream m fec_protected).1, none))
        else (err (waits pos), maybe_send_blocked_frame queued)

    -- The call has received from its channel.
    unfoldable pub woken : OutgoingStreamsMap T → ℕ → Bool → Result Panic (Answer T)
    unfolding open_stream unblock_open_sync
    woken m pos fec_protected =
        let o : T × OutgoingStreamsMap T = open_stream m fec_protected in
        let m1 : OutgoingStreamsMap T = record (o.1) {
          open_queue = without pos m.open_queue;
          lowest_in_queue = pos + 1;
        } in
        if m.closed
        then ok (err map_closed, (m, none))
        else if is_above m.next_stream m.max_stream
        then ok (err (waits pos), (m, none))
        else (unblock_open_sync m1 >>= λ m2. ok (ok o.0, (m2, none)))

    unfoldable pub wake_from :
        OutgoingStreamsMap T → ℕ → Bool → Option WaitChan → Result Panic (Answer T)
    unfolding woken
    wake_from m pos fec_protected none = ok (err (waits pos), (m, none))
    wake_from m pos fec_protected (some empty) = ok (err (waits pos), (m, none))
    wake_from m pos fec_protected (some full) =
        woken (record m { open_queue = insert pos empty m.open_queue }) pos fec_protected
    wake_from m pos fec_protected (some closed_chan) = woken m pos fec_protected

    unfoldable pub wake : OutgoingStreamsMap T → ℕ → Bool → Result Panic (Answer T)
    unfolding wake_from
    wake m pos fec_protected = wake_from m pos fec_protected (lookup pos m.open_queue)
