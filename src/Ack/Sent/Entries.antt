-- ===== src/Ack/Sent/Entries.antt =====
-- internal/ackhandler/sent_packet_history.go: the entries of the history as a list.
use x_fec.Base.{
  ℕ, zero, suc, ◌+◌, ◌≡◌, refl, sym, subst, ◌∙◌, List, [], ◌∷◌, ◌++◌, Bool, true, false,
  if◌then◌else◌, Option, none, some, length, set, get_or, arith, inl, inr, ◌⊎◌, Bool-cases,
  length-set,
}
use x_fec.Ack.Sent.{Packet, cleanup_start, clear_skipped, is_skipped, starts_nil}

-- The packets have consecutive numbers from `n` on, nil entries counted.
abbrev pub Numbered : ℕ → List (Option Packet) → Type 0
Numbered n [] = Unit
Numbered n (none ∷ ps) = Numbered (suc n) ps
Numbered n (some p ∷ ps) = (p.packet_number ≡ n) × Numbered (suc n) ps

abbrev pub one : (Packet → Bool) → Option Packet → ℕ
one f none = 0
one f (some p) = if f p then 1 else 0

-- How many packets pass a test.
abbrev pub tally : (Packet → Bool) → List (Option Packet) → ℕ
tally f [] = 0
tally f (e ∷ ps) = one f e + tally f ps

-- A test that skipped packets do not pass.
abbrev pub Skips : (Packet → Bool) → Type 0
Skips f = (p : Packet) → p.skipped_packet ≡ true → f p ≡ false

pub tally-append :
    (f : Packet → Bool) (ps : List (Option Packet)) (e : Option Packet)
    → tally f (ps ++ e ∷ []) ≡ tally f ps + one f e
tally-append f [] e = omega arith
tally-append f (x ∷ ps) e = omega (arith, tally-append f ps e)

pub tally-set :
    (f : Packet → Bool) (ps : List (Option Packet)) (i : ℕ)
    → tally f (set ps i none) + one f (get_or ps i none) ≡ tally f ps
tally-set f [] i = omega arith
tally-set f (x ∷ ps) zero = omega arith
tally-set f (x ∷ ps) (suc i) = omega (arith, tally-set f ps i)

pub append-Numbered :
    (n : ℕ) (ps : List (Option Packet)) (e : Option Packet)
    → Numbered n ps
    → Numbered (n + length ps) (e ∷ [])
    → Numbered n (ps ++ e ∷ [])
append-Numbered n [] none a b = tt
append-Numbered n [] (some p) a b = (omega (arith, b.0), tt)
append-Numbered n (none ∷ ps) none a b = append-Numbered (suc n) ps none a tt
append-Numbered n (none ∷ ps) (some p) a b =
    append-Numbered (suc n) ps (some p) a (omega (arith, b.0), tt)
append-Numbered n (some x ∷ ps) none a b = (a.0, append-Numbered (suc n) ps none (a.1) tt)
append-Numbered n (some x ∷ ps) (some p) a b =
    (a.0, append-Numbered (suc n) ps (some p) (a.1) (omega (arith, b.0), tt))

pub set-Numbered :
    (n : ℕ) (ps : List (Option Packet)) (i : ℕ) → Numbered n ps → Numbered n (set ps i none)
set-Numbered n [] i a = tt
set-Numbered n (none ∷ ps) zero a = a
set-Numbered n (some p ∷ ps) zero a = a.1
set-Numbered n (none ∷ ps) (suc i) a = set-Numbered (suc n) ps i a
set-Numbered n (some p ∷ ps) (suc i) a = (a.0, set-Numbered (suc n) ps i (a.1))

pub number_at :
    (n : ℕ) (ps : List (Option Packet)) (i : ℕ) (p : Packet)
    → Numbered n ps
    → get_or ps i none ≡ some p
    → p.packet_number ≡ n + i
number_at n [] i p a e = absurd (cc)
number_at n (none ∷ ps) zero p a e = absurd (cc)
number_at n (some q ∷ ps) zero p a e = ground (arith, a.0)
number_at n (none ∷ ps) (suc i) p a e = omega (arith, number_at (suc n) ps i p a e)
number_at n (some q ∷ ps) (suc i) p a e = omega (arith, number_at (suc n) ps i p (a.1) e)

tally_skipped :
    (f : Packet → Bool)
    → Skips f
    → (ps : List (Option Packet)) (i : ℕ) → is_skipped (get_or ps i none) ≡ true
    → tally f (set ps i none) ≡ tally f ps
tally_skipped f s [] i e = refl
tally_skipped f s (none ∷ ps) zero e = absurd (cc)
tally_skipped f s (some p ∷ ps) zero e = ground (arith, s p)
tally_skipped f s (x ∷ ps) (suc i) e = omega (arith, tally_skipped f s ps i e)

-- The loop over the skipped packets.
pub record Cleared (ps : List (Option Packet)) (c : List (Option Packet) × ℕ) : Type 0 where
  pub same_tally : (f : Packet → Bool) → Skips f → tally f c.0 ≡ tally f ps
  pub same_length : length c.0 ≡ length ps
  pub numbered : (n : ℕ) → Numbered n ps → Numbered n c.0
  pub front : (c.1 ≡ 0) ⊎ (starts_nil c.0 ≡ starts_nil ps)

pub starts_set :
    (ps : List (Option Packet)) (i : ℕ) → (i ≡ 0) ⊎ (starts_nil (set ps i none) ≡ starts_nil ps)
starts_set ps zero = inl refl
starts_set [] (suc i) = inr refl
starts_set (none ∷ ps) (suc i) = inr refl
starts_set (some p ∷ ps) (suc i) = inr refl

pub clear_at_zero : (ps : List (Option Packet)) → (clear_skipped zero ps).1 ≡ 0
unfolding clear_skipped
clear_at_zero ps = refl

pub clear_skipped-Cleared : (i : ℕ) (ps : List (Option Packet)) → Cleared ps (clear_skipped i ps)
unfolding clear_skipped
clear_skipped-Cleared zero ps = record {
  same_tally = λ f s. refl;
  same_length = refl;
  numbered = λ n a. a;
  front = inl refl;
}
clear_skipped-Cleared (suc i) ps =
    let ih = clear_skipped-Cleared i (set ps i none) in
    elim (Bool-cases (is_skipped (get_or ps i none))) [
      | inr e ↦ rw e (record {
        same_tally = λ f s. refl;
        same_length = refl;
        numbered = λ n a. a;
        front = inr refl;
      })
      | inl e ↦ rw e (record {
        same_tally = λ f s. ih.same_tally f s ∙ tally_skipped f s ps i e;
        same_length = ih.same_length ∙ length-set ps i none;
        numbered = λ n a. ih.numbered n (set-Numbered n ps i a);
        front = elim (starts_set ps i) [
          | inl z ↦ inl (
              subst (λ j. (clear_skipped j (set ps i none)).1 ≡ 0) (sym z)
                (clear_at_zero (set ps i none)))
          | inr q ↦ elim ih.front [ inl z ↦ inl z | inr r ↦ inr (r ∙ q) ]
        ];
      })
    ]

-- The nil entries in front are deleted, and the end stays where it is.
pub cleanup_start_lem :
    (ps : List (Option Packet)) (n : ℕ)
    → Numbered n ps
    → (m : ℕ) × Numbered m (cleanup_start ps)
      × (m + length (cleanup_start ps) ≡ n + length ps)
      × (starts_nil (cleanup_start ps) ≡ false)
      × ((f : Packet → Bool) → tally f (cleanup_start ps) ≡ tally f ps)
unfolding cleanup_start
cleanup_start_lem [] n a = (n, tt, refl, refl, λ f. refl)
cleanup_start_lem (some p ∷ ps) n a = (n, a, refl, refl, λ f. refl)
cleanup_start_lem (none ∷ ps) n a =
    let (m, b, e, s, t) = cleanup_start_lem ps (suc n) a in
    (m, b, omega (arith, e), s, λ f. omega (arith, t f))
