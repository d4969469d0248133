-- ===== src/Streams/Outgoing/Served.antt =====
-- streams_map_outgoing.go: the calls that wait, in their order, and the one that is notified.
use x_fec.Base.{
  ℕ, ◌+◌, ◌-◌, ◌<◌, ◌≤◌, ◌≡◌, ◌≢◌, ◌∙◌, refl, sym, ap, false, ltb, ◌==◌, ==_iff, Option, none, some,
  Result, ok, err, length, arith, inl, inr, Bool-cases,
}
use x_fec.Base.Dict.{Dict, insert, lookup, lookup-insert}
use x_fec.Base.Keys.{without}
use x_fec.Streams.Outgoing.{
  WaitChan, empty, full, closed_chan, OutgoingStreamsMap, Panic, is_above, stream_limit,
  unblock_from, unblock_open_sync,
}
use x_fec.Streams.Outgoing.Queue.{
  IsWaiting, nobody_waits, lookup-without, Unblocked, nobody, notified, unblock_from-Unblocked,
}

-- The places are in a range, only the first call can be notified, and no channel is closed.
pub record IsQueue (q : Dict WaitChan) (lo : ℕ) (hi : ℕ) : Type 0 where
  pub ranged : (k : ℕ) → IsWaiting k q → (lo ≤ k) × (k < hi)
  pub in_front : (k j : ℕ) → lookup k q ≡ some full → IsWaiting j q → k ≤ j
  pub all_open : (k : ℕ) → lookup k q ≢ some closed_chan

abbrev pub HasNotified : Dict WaitChan → Type 0
HasNotified q = (k : ℕ) × (lookup k q ≡ some full)

-- If a call waits, one is notified.
abbrev pub IsServed : Dict WaitChan → Type 0
IsServed q = (j : ℕ) → IsWaiting j q → HasNotified q

-- What stands in a queue that was searched from its lowest place on.
pub record Served (lo hi : ℕ) (q' : Dict WaitChan) : Type 0 where
  pub ordered : IsQueue q' lo hi
  pub is_served : IsServed q'

pub full_waits : (k : ℕ) (q : Dict WaitChan) → lookup k q ≡ some full → IsWaiting k q
full_waits k q e h = ground arith

notified_open :
    (i k : ℕ) (q : Dict WaitChan) → i ≡ k → lookup k q ≡ some full → lookup i q ≢ some closed_chan
notified_open i k q e g h = ground (arith, sym (ap (λ y. lookup y q) e ∙ g) ∙ h)

pub search_result :
    (q : Dict WaitChan) (lo hi n : ℕ) (r : Result Panic (Dict WaitChan))
    → hi ≤ lo + n
    → IsQueue q lo hi
    → Unblocked lo n q r
    → (q' : Dict WaitChan) × (r ≡ ok q') × Served lo hi q'
search_result q lo hi n (err x) l v u = elim u [ ]
search_result q lo hi n (ok x) l v (nobody f) = (
  q,
  refl,
  record {
    ordered = v;
    is_served = λ j w. absurd (w (f j (v.ranged j w).0 (omega (arith, (v.ranged j w).1))));
  },
)
search_result q lo hi n (ok x) l v (notified k q' w f g h) =
    let waits : (i : ℕ) → IsWaiting i q' → IsWaiting i q = λ i u. elim (Bool-cases (i == k)) [
      | inl e ↦ (λ z. w (ap (λ y. lookup y q) (sym ((==_iff i k).0 e)) ∙ z))
      | inr e ↦ (λ z. u (h i (ground arith) ∙ z))
    ] in
    let below : (j : ℕ) → IsWaiting j q → k ≤ j = λ j u. elim (Bool-cases (ltb j k)) [
      | inl e ↦ absurd (u (f j (v.ranged j u).0 (ground arith)))
      | inr e ↦ ground arith
    ] in
    (
      q',
      refl,
      record {
        ordered = record {
          ranged = λ i u. v.ranged i (waits i u);
          in_front = λ i j e u. elim (Bool-cases (i == k)) [
            | inl z ↦ omega (arith, (==_iff i k).0 z, below j (waits j u))
            | inr z ↦
                omega (arith, v.in_front i k (sym (h i (ground arith)) ∙ e) w, below j (waits j u))
          ];
          all_open = λ i e. elim (Bool-cases (i == k)) [
            | inl z ↦ notified_open i k q' ((==_iff i k).0 z) g e
            | inr z ↦ v.all_open i (sym (h i (ground arith)) ∙ e)
          ];
        };
        is_served = λ j u. (k, g);
      },
    )

is_empty : (c : WaitChan) → c ≢ empty → ◌≢◌ {A = Option WaitChan} (some empty) (some c)
is_empty empty d e = d refl
is_empty full d e = ground arith
is_empty closed_chan d e = ground arith

pub enqueued-IsQueue :
    (q : Dict WaitChan) (lo hi : ℕ)
    → IsQueue q lo hi
    → lo ≤ hi
    → IsQueue (insert hi empty q) lo (hi + 1)
enqueued-IsQueue q lo hi v l =
    let old : (k : ℕ) → k ≢ hi → lookup k (insert hi empty q) ≡ lookup k q =
      λ k d. ground (arith, lookup-insert hi k empty q) in
    let new : lookup hi (insert hi empty q) ≡ some empty =
      ground (arith, lookup-insert hi hi empty q) in
    let waits : (k : ℕ) → IsWaiting k (insert hi empty q) → k ≢ hi → IsWaiting k q =
      λ k w d z. w (old k d ∙ z) in
    let moved : (k : ℕ) (c : WaitChan)
        → c ≢ empty
        → lookup k (insert hi empty q) ≡ some c
        → k ≢ hi =
      λ k c d e f. is_empty c d (sym new ∙ ap (λ i. lookup i (insert hi empty q)) (sym f) ∙ e) in
    record {
      ranged = λ k w. elim (Bool-cases (k == hi)) [
        | inl e ↦ ground arith
        | inr e ↦ (let r = v.ranged k (waits k w (ground arith)) in (r.0, omega (arith, r.1)))
      ];
      in_front = λ k j e w.
          let d : k ≢ hi = moved k full (λ z. ground arith) e in
          let e' : lookup k q ≡ some full = sym (old k d) ∙ e in
          elim (Bool-cases (j == hi)) [
            | inl f ↦ omega (arith, (==_iff j hi).0 f, (v.ranged k (full_waits k q e')).1)
            | inr f ↦ v.in_front k j e' (waits j w (ground arith))
          ];
      all_open = λ k e.
          let d : k ≢ hi = moved k closed_chan (λ z. ground arith) e in
          v.all_open k (sym (old k d) ∙ e);
    }

pub without-IsQueue :
    (k : ℕ) (q : Dict WaitChan) (lo hi : ℕ) → IsQueue q lo hi → IsQueue (without k q) lo hi
without-IsQueue k q lo hi v =
    let same : (i : ℕ) (c : Option WaitChan)
        → c ≢ none
        → lookup i (without k q) ≡ c
        → lookup i q ≡ c =
      λ i c d e. ground (arith, lookup-without k i q) in
    let waits : (i : ℕ) → IsWaiting i (without k q) → IsWaiting i q =
      λ i w z. w (ground (arith, lookup-without k i q)) in
    record {
      ranged = λ i w. v.ranged i (waits i w);
      in_front = λ i j e w. v.in_front i j (same i (some full) (λ z. ground arith) e) (waits j w);
      all_open = λ i e. v.all_open i (same i (some closed_chan) (λ z. ground arith) e);
    }

-- The first call takes its notification.
pub taken-IsQueue :
    (k : ℕ) (q : Dict WaitChan) (lo hi : ℕ)
    → IsQueue q lo hi
    → lookup k q ≡ some full
    → IsQueue (insert k empty q) lo hi
taken-IsQueue k q lo hi v f =
    let old : (i : ℕ) → i ≢ k → lookup i (insert k empty q) ≡ lookup i q =
      λ i d. ground (arith, lookup-insert k i empty q) in
    let new : lookup k (insert k empty q) ≡ some empty =
      ground (arith, lookup-insert k k empty q) in
    let waits : (i : ℕ) → IsWaiting i (insert k empty q) → IsWaiting i q = λ i w.
      elim (Bool-cases (i == k)) [
        | inl e ↦ (λ z. full_waits k q f (ap (λ y. lookup y q) (sym ((==_iff i k).0 e)) ∙ z))
        | inr e ↦ (λ z. w (old i (ground arith) ∙ z))
      ] in
    let moved : (i : ℕ) (c : WaitChan) → c ≢ empty → lookup i (insert k empty q) ≡ some c → i ≢ k =
      λ i c d e g. is_empty c d (sym new ∙ ap (λ y. lookup y (insert k empty q)) (sym g) ∙ e) in
    record {
      ranged = λ i w. v.ranged i (waits i w);
      in_front = λ i j e w.
          v.in_front i j (sym (old i (moved i full (λ z. ground arith) e)) ∙ e) (waits j w);
      all_open = λ i e. v.all_open i (sym (old i (moved i closed_chan (λ z. ground arith) e)) ∙ e);
    }

-- The first call leaves the queue.
pub left-IsQueue :
    (k : ℕ) (q : Dict WaitChan) (lo hi : ℕ)
    → IsQueue q lo hi
    → lookup k q ≡ some full
    → IsQueue (without k (insert k empty q)) (k + 1) hi
left-IsQueue k q lo hi v f =
    let t : IsQueue (without k (insert k empty q)) lo hi =
      without-IsQueue k (insert k empty q) lo hi (taken-IsQueue k q lo hi v f) in
    let other : (i : ℕ) → IsWaiting i (without k (insert k empty q)) → i ≢ k =
      λ i w e. w (ground (arith, lookup-without k i (insert k empty q))) in
    let waits : (i : ℕ) → IsWaiting i (without k (insert k empty q)) → IsWaiting i q = λ i w z. w (
      ground
        (arith, other i w, lookup-without k i (insert k empty q), lookup-insert k i empty q)) in
    record {
      ranged = λ i w. (omega (arith, v.in_front k i f (waits i w), other i w), (t.ranged i w).1);
      in_front = t.in_front;
      all_open = t.all_open;
    }

module _ {T : Type 0} where
  -- The state of a map that is not closed.
  pub record IsValid (m : OutgoingStreamsMap T) : Type 0 where
    pub ordered : IsQueue m.open_queue m.lowest_in_queue m.highest_in_queue
    pub range : m.lowest_in_queue ≤ m.highest_in_queue
    pub started : 1 ≤ m.next_stream
    pub limited : m.next_stream ≤ stream_limit m.max_stream + 1
    pub served : is_above m.next_stream m.max_stream ≡ false → IsServed m.open_queue
    pub is_open : m.closed ≡ false

  pub unblock_open_sync-Served :
      (m : OutgoingStreamsMap T)
      → IsQueue m.open_queue m.lowest_in_queue m.highest_in_queue
      → (q : Dict WaitChan) × (unblock_open_sync m ≡ ok (record m { open_queue = q }))
        × Served m.lowest_in_queue m.highest_in_queue q
  unfolding unblock_open_sync
  unblock_open_sync-Served m v = elim (Bool-cases (length m.open_queue == 0)) [
    | inl e ↦ (
      m.open_queue,
      simp e refl,
      record {
        ordered = v;
        is_served =
            λ j w. absurd (w (nobody_waits j m.open_queue ((==_iff (length m.open_queue) 0).0 e)));
      },
    )
    | inr e ↦
        let u =
          search_result m.open_queue m.lowest_in_queue m.highest_in_queue
            (m.highest_in_queue + 1 - m.lowest_in_queue)
            (unblock_from (m.highest_in_queue + 1 - m.lowest_in_queue) m.lowest_in_queue
              m.open_queue)
            (omega arith) v
            (unblock_from-Unblocked (m.highest_in_queue + 1 - m.lowest_in_queue) m.lowest_in_queue
              m.open_queue v.all_open) in
        (u.0, simp (e, u.1) refl, u.2)
  ]
