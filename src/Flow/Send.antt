-- ===== src/Flow/Send.antt =====
-- internal/flowcontrol/base_flow_controller.go: the sending side.
use x_fec.Base.{
  ℕ, ◌<◌, ◌≤◌, ◌≡◌, List, [], ◌∷◌, Option, none, some, arith, inl, inr, ◌⊎◌, ◌≢◌, subst,
}
use x_fec.Flow.{
  BaseFlowController, send_window_size, is_newly_blocked, base_add_bytes_sent, update_send_window,
}

-- What a sender does: it sends bytes, gets a new limit, asks whether it is blocked.
pub data SendOp : Type 0 where
  sends raises : ℕ → SendOp
  asks : SendOp

abbrev reported : Option ℕ → List ℕ → List ℕ
reported none l = l
reported (some x) l = x ∷ l

-- The offsets at which a controller says that it is blocked.
unfoldable pub reports : BaseFlowController → List SendOp → List ℕ
reports c [] = []
reports c (sends n ∷ os) = reports (base_add_bytes_sent c n) os
reports c (raises n ∷ os) = reports (update_send_window c n).1 os
reports c (asks ∷ os) = reported (is_newly_blocked c).0 (reports (is_newly_blocked c).1 os)

abbrev pub Ascends : ℕ → List ℕ → Type 0
Ascends b [] = Unit
Ascends b (x ∷ xs) = (b < x) × Ascends x xs

asked :
    (c : BaseFlowController)
    → ((is_newly_blocked c).0 ≡ none) × ((is_newly_blocked c).1 ≡ c)
      ⊎ (((is_newly_blocked c).0 ≡ some c.send_window)
          × ((is_newly_blocked c).1.last_blocked_at ≡ c.send_window)
          × ((is_newly_blocked c).1.send_window ≡ c.send_window)
          × (c.send_window ≢ c.last_blocked_at)
          × (send_window_size c ≡ 0))
unfolding is_newly_blocked
asked c = ground arith

raised :
    (c : BaseFlowController) (n : ℕ)
    → ((update_send_window c n).1.last_blocked_at ≡ c.last_blocked_at)
      × (c.send_window ≤ (update_send_window c n).1.send_window)
unfolding update_send_window
raised c n = (ground arith, ground arith)

-- The offsets that a controller reports as newly blocked ascend strictly, whatever it sends and whichever
-- limits it gets in between: none is reported twice.
pub reports-Ascends :
    (c : BaseFlowController) (os : List SendOp)
    → c.last_blocked_at ≤ c.send_window
    → Ascends c.last_blocked_at (reports c os)
unfolding reports base_add_bytes_sent
reports-Ascends c [] h = tt
reports-Ascends c (sends n ∷ os) h = reports-Ascends (base_add_bytes_sent c n) os h
reports-Ascends c (raises n ∷ os) h =
    let r = raised c n in
    let c' = (update_send_window c n).1 in
    subst (λ b. Ascends b (reports c' os)) (r.0) (reports-Ascends c' os (omega (arith, r)))
reports-Ascends c (asks ∷ os) h = elim (asked c) [
  | inl (e, f) ↦ rw (e, f) (reports-Ascends c os h)
  | inr (e, l, w, d, z) ↦ rw e (
    omega arith,
    subst (λ b. Ascends b (reports (is_newly_blocked c).1 os)) l
        (reports-Ascends (is_newly_blocked c).1 os (omega (arith, l, w))),
  )
]
