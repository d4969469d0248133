-- ===== src/Streams/Outgoing/Queue.antt =====
-- streams_map_outgoing.go: the queue of the calls that wait.
use x_fec.Base.{
  ℕ, zero, suc, ◌+◌, ◌<◌, ◌≤◌, ◌≡◌, ◌≢◌, ◌∙◌, refl, ap, [], ◌∷◌, ◌==◌, ==_iff, if◌then◌else◌,
  Option, none, some, Result, ok, err, length, arith, inl, inr, Bool-cases,
}
use x_fec.Base.Dict.{Dict, insert, lookup, lookup-insert}
use x_fec.Base.Keys.{without}
use x_fec.Streams.Outgoing.{WaitChan, empty, full, closed_chan, Panic, notify, unblock_from}

pub lookup-without {ℓ} :
    {V : Type ℓ} (k j : ℕ) (m : Dict V)
    → lookup j (without k m) ≡ (if k == j then none else lookup j m)
lookup-without k j [] = ground arith
lookup-without k j ((i, v) ∷ m) = ground (arith, lookup-without k j m)

-- Whether a call waits at a place.
abbrev pub IsWaiting : ℕ → Dict WaitChan → Type 0
IsWaiting k q = lookup k q ≢ none

pub nobody_waits : (k : ℕ) (q : Dict WaitChan) → length q ≡ 0 → lookup k q ≡ none
nobody_waits k [] e = refl
nobody_waits k (x ∷ q) e = ground arith

pub somebody_waits : (q : Dict WaitChan) → length q ≢ 0 → (k : ℕ) × IsWaiting k q
somebody_waits [] n = absurd (n refl)
somebody_waits ((k, c) ∷ q) n = (k, λ e. ground arith)

-- The queue after the search for the next call from a place on.
pub data Unblocked (qp n : ℕ) (q : Dict WaitChan) : Result Panic (Dict WaitChan) → Type 0 where
  nobody : ((i : ℕ) → qp ≤ i → i < qp + n → lookup i q ≡ none) → Unblocked qp n q (ok q)
  notified :
      (k : ℕ) (q' : Dict WaitChan)
      → IsWaiting k q
      → ((i : ℕ) → qp ≤ i → i < k → lookup i q ≡ none)
      → lookup k q' ≡ some full
      → ((i : ℕ) → i ≢ k → lookup i q' ≡ lookup i q)
      → Unblocked qp n q (ok q')

further-Unblocked :
    (qp n : ℕ) (q : Dict WaitChan) (r : Result Panic (Dict WaitChan))
    → lookup qp q ≡ none
    → Unblocked (qp + 1) n q r
    → Unblocked qp (suc n) q r
further-Unblocked qp n q (ok x) e (nobody f) = nobody λ i a b. elim (Bool-cases (i == qp)) [
  | inl h ↦ ap (λ y. lookup y q) ((==_iff i qp).0 h) ∙ e
  | inr h ↦ f i (ground arith) (omega arith)
]
further-Unblocked qp n q (ok x) e (notified k q' w f g h) =
    notified k q' w
      (λ i a b. elim (Bool-cases (i == qp)) [
        | inl z ↦ ap (λ y. lookup y q) ((==_iff i qp).0 z) ∙ e
        | inr z ↦ f i (ground arith) b
      ])
      g h
further-Unblocked qp n q (err x) e u = elim u [ ]

notify-Unblocked :
    (qp n : ℕ) (q : Dict WaitChan) (c : Option WaitChan) (r : Result Panic (Dict WaitChan))
    → lookup qp q ≡ c
    → c ≢ some closed_chan
    → Unblocked (qp + 1) n q r
    → Unblocked qp (suc n) q (notify qp q c r)
notify-Unblocked qp n q none r e o u = further-Unblocked qp n q r e u
notify-Unblocked qp n q (some empty) r e o u =
    notified qp (insert qp full q) (λ h. ground arith) (λ i a b. absurd (omega arith))
      (ground (arith, lookup-insert qp qp full q)) λ i d. ground (arith, lookup-insert qp i full q)
notify-Unblocked qp n q (some full) r e o u =
    notified qp q (λ h. ground arith) (λ i a b. absurd (omega arith)) e λ i d. refl
notify-Unblocked qp n q (some closed_chan) r e o u = absurd (o refl)

pub unblock_from-Unblocked :
    (n qp : ℕ) (q : Dict WaitChan)
    → ((k : ℕ) → lookup k q ≢ some closed_chan)
    → Unblocked qp n q (unblock_from n qp q)
unfolding unblock_from
unblock_from-Unblocked zero qp q o = nobody λ i a b. absurd (omega arith)
unblock_from-Unblocked (suc n) qp q o =
    notify-Unblocked qp n q (lookup qp q) (unblock_from n (qp + 1) q) refl (o qp)
      (unblock_from-Unblocked n (qp + 1) q o)
