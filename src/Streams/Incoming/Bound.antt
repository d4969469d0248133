-- ===== src/Streams/Incoming/Bound.antt =====
-- streams_map_incoming.go: how many streams the peer can have.
use x_fec.Base.{
  ℕ, zero, suc, ◌+◌, ◌-◌, ◌<◌, ◌≤◌, ◌≡◌, refl, true, false, ltb, leb, Option, none, some, Result,
  ok, err, length, arith, inl, inr, Bool-cases,
}
use x_fec.Base.Dict.{Dict, insert, lookup, has, length-insert_new, length-insert_old}
use x_fec.Base.Keys.{without, without_present}
use x_fec.Wire.Control.{max_stream_count}
use x_fec.Streams.Incoming.{
  StreamEntry, IncomingStreamsMap, StreamsError, Changed, announce, delete_entry, delete_stream,
  accepted, accept_entry, accept_stream, open_from, get_or_open_stream,
}

length-insert_le {ℓ} :
    {V : Type ℓ} (k : ℕ) (v : V) (m : Dict V) → length (insert k v m) ≤ length m + 1
length-insert_le k v m = elim (Bool-cases (has k m)) [
  | inl e ↦ omega (arith, length-insert_old k v m e)
  | inr e ↦ omega (arith, length-insert_new k v m e)
]

has_found {ℓ} : {V : Type ℓ} (k : ℕ) (m : Dict V) (v : V) → lookup k m ≡ some v → has k m ≡ true
has_found k m v e = rw (e, has) refl

module _ {T : Type 0} where
  -- The streams that exist and those that the peer may still open are at most as many as allowed.
  pub record IsBounded (m : IncomingStreamsMap T) : Type 0 where
    pub opened : m.next_stream_to_open ≤ m.max_stream + 1
    pub bounded : length m.streams + (m.max_stream + 1) ≤ m.max_num_streams + m.next_stream_to_open

  -- The limit before and after, and the frame that announces it.
  abbrev pub Announces : IncomingStreamsMap T → IncomingStreamsMap T → Option ℕ → Type 0
  Announces m m' none = m'.max_stream ≡ m.max_stream
  Announces m m' (some n) = (m'.max_stream ≡ n) × (m.max_stream < n) × (n ≤ max_stream_count)

  pub record Keeps (m : IncomingStreamsMap T) (m' : IncomingStreamsMap T) (frame : Option ℕ)
      : Type 0 where
    pub still_bounded : IsBounded m'
    pub same_maximum : m'.max_num_streams ≡ m.max_num_streams
    pub limit : Announces m m' frame

  abbrev pub Good :
      IncomingStreamsMap T → Result StreamsError (IncomingStreamsMap T × Option ℕ) → Type 0
  Good m (err e) = Unit
  Good m (ok (m', frame)) = Keeps m m' frame

  announced :
      (m : IncomingStreamsMap T) (ss : Dict (StreamEntry T))
      → IsBounded m
      → length ss + 1 ≤ length m.streams
      → Keeps m (announce (record m { streams = ss })).0 (announce (record m { streams = ss })).1
  unfolding announce
  announced m ss b l = ground arith

  pub deleted :
      (m : IncomingStreamsMap T) (num : ℕ) (o : Option (StreamEntry T))
      → lookup num m.streams ≡ o
      → IsBounded m
      → Good m (delete_entry m num o)
  unfolding delete_entry
  deleted m num none e b = tt
  deleted m num (some s) e b = elim (Bool-cases (leb m.next_stream_to_accept num)) [
    | inr n ↦ rw n (
        announced m (without num m.streams) b
          (omega (arith, without_present num m.streams (has_found num m.streams s e))))
    | inl n ↦ elim (Bool-cases s.should_delete) [
      | inl d ↦ rw (n, d) tt
      | inr d ↦
          rw (n, d)
            (record {
              still_bounded = record {
                opened = b.opened;
                bounded = omega (
                  arith,
                  b.bounded,
                  length-insert_old num (record s { should_delete = true }) m.streams
                      (has_found num m.streams s e),
                );
              };
              same_maximum = refl;
              limit = refl;
            })
    ]
  ]

  opened_from :
      (new_stream : ℕ → T) (n num : ℕ) (ss : Dict (StreamEntry T))
      → length (open_from new_stream n num ss) ≤ length ss + n
  unfolding open_from
  opened_from new_stream zero num ss = omega arith
  opened_from new_stream (suc n) num ss =
      let e : StreamEntry T = record { stream = new_stream num; should_delete = false } in
      omega (arith, opened_from new_stream n (num + 1) (insert num e ss), length-insert_le num e ss)

  -- The answer to a stream that is accepted, without the stream.
  abbrev pub only_map : Result StreamsError (T × (IncomingStreamsMap T × Option ℕ)) → Changed T
  only_map (ok (s, r)) = ok r
  only_map (err e) = err e

  only_accepted :
      (m : IncomingStreamsMap T) (s : T) (r : Changed T)
      → Good m r
      → Good m (only_map (accepted s r))
  only_accepted m s (ok r) g = g
  only_accepted m s (err e) g = g

  same_bound :
      (m : IncomingStreamsMap T) (k : ℕ)
      → IsBounded m
      → Good m (ok (record m { next_stream_to_accept = k }, none))
  same_bound m k b = record {
    still_bounded = record { opened = b.opened; bounded = b.bounded };
    same_maximum = refl;
    limit = refl;
  }

  -- Which stream is accepted next has no part in it.
  same-Good :
      (m : IncomingStreamsMap T) (k : ℕ) (r : Changed T)
      → Good (record m { next_stream_to_accept = k }) r
      → Good m r
  same-Good m k (err e) g = tt
  same-Good m k (ok (m', none)) g = record {
    still_bounded = g.still_bounded;
    same_maximum = g.same_maximum;
    limit = g.limit;
  }
  same-Good m k (ok (m', some n)) g = record {
    still_bounded = g.still_bounded;
    same_maximum = g.same_maximum;
    limit = g.limit;
  }

  accepted_entry :
      (m : IncomingStreamsMap T) (num : ℕ) (o : Option (StreamEntry T))
      → IsBounded m
      → Good m (only_map (accept_entry m num o))
  unfolding accept_entry delete_stream
  accepted_entry m num none b = tt
  accepted_entry m num (some e) b =
      let m1 : IncomingStreamsMap T = record m { next_stream_to_accept = num + 1 } in
      let b1 : IsBounded m1 = record { opened = b.opened; bounded = b.bounded } in
      let r : Changed T = delete_entry m1 num (lookup num m.streams) in
      let g : Good m r = same-Good m (num + 1) r (deleted m1 num (lookup num m.streams) refl b1) in
      elim (Bool-cases e.should_delete) [
        | inl d ↦ rw d (only_accepted m e.stream r g)
        | inr d ↦ rw d (same_bound m (num + 1) b)
      ]

  pub accepted_stream :
      (m : IncomingStreamsMap T) → IsBounded m → Good m (only_map (accept_stream m))
  unfolding accept_stream
  accepted_stream m b = elim (Bool-cases m.closed) [
    | inl c ↦ simp c tt
    | inr c ↦
        simp c
          (accepted_entry m m.next_stream_to_accept (lookup m.next_stream_to_accept m.streams) b)
  ]

  abbrev pub opened_map : Result StreamsError (Option T × IncomingStreamsMap T) → Changed T
  opened_map (ok (s, m)) = ok (m, none)
  opened_map (err e) = err e

  pub got_stream :
      (new_stream : ℕ → T) (m : IncomingStreamsMap T) (num : ℕ)
      → IsBounded m
      → Good m (opened_map (get_or_open_stream new_stream m num))
  unfolding get_or_open_stream
  got_stream new_stream m num b = elim (Bool-cases (ltb m.max_stream num)) [
    | inl c ↦ rw c tt
    | inr c ↦ elim (Bool-cases (ltb num m.next_stream_to_open)) [
      | inl d ↦ rw (c, d) (record { still_bounded = b; same_maximum = refl; limit = refl })
      | inr d ↦ elim (Bool-cases m.closed) [
        | inl x ↦ simp (c, d, x) tt
        | inr x ↦
            simp (c, d, x)
              (record {
                still_bounded = record {
                  opened = ground arith;
                  bounded = ground (
                    arith,
                    opened_from new_stream (num + 1 - m.next_stream_to_open) m.next_stream_to_open
                        m.streams,
                  );
                };
                same_maximum = refl;
                limit = refl;
              })
      ]
    ]
  ]
