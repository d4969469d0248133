-- ===== src/Ack/Sent/Find.antt =====
-- internal/ackhandler/sent_packet_history.go: the packets of the history by their numbers.
use x_fec.Base.{
  ℕ, zero, suc, ◌+◌, ◌<◌, ◌≤◌, ◌≡◌, ◌≢◌, refl, subst, ap, ◌∙◌, List, [], ◌∷◌, true, false, ◌==◌,
  ==_iff, if◌then◌else◌, Option, none, some, set, get_or, arith, inl, inr, Bool-cases,
}
use x_fec.Ack.Sent.{Packet, cleanup_start, clear_skipped, is_skipped}
use x_fec.Ack.Sent.Entries.{Numbered, set-Numbered}

-- The packet with a number.
abbrev pub find : ℕ → List (Option Packet) → Option Packet
find k [] = none
find k (none ∷ ps) = find k ps
find k (some p ∷ ps) = if p.packet_number == k then some p else find k ps

find_below : (n k : ℕ) (ps : List (Option Packet)) → Numbered n ps → k < n → find k ps ≡ none
find_below n k [] a l = refl
find_below n k (none ∷ ps) a l = find_below (suc n) k ps a (omega arith)
find_below n k (some p ∷ ps) a l = ground (arith, a.0, find_below (suc n) k ps (a.1) (omega arith))

-- The packet at an index has the number that is counted there.
pub find-get_or :
    (n i : ℕ) (ps : List (Option Packet)) → Numbered n ps → find (n + i) ps ≡ get_or ps i none
find-get_or n i [] a = refl
find-get_or n zero (none ∷ ps) a = find_below (suc n) (n + 0) ps a (omega arith)
find-get_or n zero (some p ∷ ps) a = ground (arith, a.0)
find-get_or n (suc i) (none ∷ ps) a =
    subst (λ k. find k ps ≡ get_or ps i none) (let e : suc n + i ≡ n + suc i = omega arith in e)
      (find-get_or (suc n) i ps a)
find-get_or n (suc i) (some p ∷ ps) a = ground (
  arith,
  a.0,
  subst (λ k. find k ps ≡ get_or ps i none) (let e : suc n + i ≡ n + suc i = omega arith in e)
      (find-get_or (suc n) i ps (a.1)),
)

pub find-set :
    (n i k : ℕ) (ps : List (Option Packet))
    → Numbered n ps
    → find k (set ps i none) ≡ (if k == n + i then none else find k ps)
find-set n i k [] a = ground arith
find-set n zero k (none ∷ ps) a = ground (arith, find_below (suc n) k ps a)
find-set n zero k (some p ∷ ps) a = ground (arith, a.0, find_below (suc n) k ps (a.1))
find-set n (suc i) k (none ∷ ps) a = ground (arith, find-set (suc n) i k ps a)
find-set n (suc i) k (some p ∷ ps) a = ground (arith, a.0, find-set (suc n) i k ps (a.1))

pub find-cleanup_start : (k : ℕ) (ps : List (Option Packet)) → find k (cleanup_start ps) ≡ find k ps
unfolding cleanup_start
find-cleanup_start k [] = refl
find-cleanup_start k (none ∷ ps) = find-cleanup_start k ps
find-cleanup_start k (some p ∷ ps) = refl

skipped_once :
    (j k : ℕ) (ps : List (Option Packet))
    → j ≡ k
    → is_skipped (find k ps) ≡ true
    → is_skipped (find j ps) ≢ false
skipped_once j k ps e t f = ground (arith, ap (λ x. is_skipped (find x ps)) e, t, f)

-- What the loop over the skipped packets in front of the index leaves: every packet from the index on, no packet
-- that only skipped ones stand behind, and every packet with another one behind it.
pub record Swept (n : ℕ) (i : ℕ) (ps : List (Option Packet)) (qs : List (Option Packet))
    : Type 0 where
  pub behind : (k : ℕ) → n + i ≤ k → find k qs ≡ find k ps
  pub swept :
      (k : ℕ)
      → k < n + i
      → ((j : ℕ) → k ≤ j → j < n + i → is_skipped (find j ps) ≡ true)
      → find k qs ≡ none
  pub stays : (k j : ℕ) → k ≤ j → j < n + i → is_skipped (find j ps) ≡ false → find k qs ≡ find k ps

pub clear_skipped-Swept :
    (n i : ℕ) (ps : List (Option Packet)) → Numbered n ps → Swept n i ps (clear_skipped i ps).0
unfolding clear_skipped
clear_skipped-Swept n zero ps a = record {
  behind = λ k l. refl;
  swept = λ k l f. find_below n k ps a (omega (arith, l));
  stays = λ k j l m e. refl;
}
clear_skipped-Swept n (suc i) ps a =
    let ih = clear_skipped-Swept n i (set ps i none) (set-Numbered n ps i a) in
    let at : find (n + i) ps ≡ get_or ps i none = find-get_or n i ps a in
    let other : (k : ℕ) → k ≢ n + i → find k (set ps i none) ≡ find k ps =
      λ k d. ground (arith, find-set n i k ps a) in
    elim (Bool-cases (is_skipped (get_or ps i none))) [
      | inr e ↦ rw e (record {
        behind = λ k l. refl;
        swept = λ k l f. absurd (ground (arith, f (n + i) (omega (arith, l)) (omega arith), at, e));
        stays = λ k j l m d. refl;
      })
      | inl e ↦ rw e (record {
        behind = λ k l. ih.behind k (omega (arith, l)) ∙ other k (omega (arith, l));
        swept = λ k l f. elim (Bool-cases (k == n + i)) [
          | inl x ↦
              ih.behind k (omega (arith, (==_iff k (n + i)).0 x))
              ∙ ground (arith, find-set n i k ps a, x)
          | inr x ↦
              let lt : k < n + i = ground (arith, l, x) in
              ih.swept k lt
                λ j y z. ap is_skipped (other j (omega (arith, z))) ∙ f j y (omega (arith, z))
        ];
        stays = λ k j l m d. elim (Bool-cases (j == n + i)) [
          | inl x ↦
              absurd (skipped_once j (n + i) ps ((==_iff j (n + i)).0 x) (ap is_skipped at ∙ e) d)
          | inr x ↦
              let lt : j < n + i = ground (arith, m, x) in
              ih.stays k j l lt (ap is_skipped (other j (omega (arith, lt))) ∙ d)
              ∙ other k (omega (arith, l, lt))
        ];
      })
    ]
