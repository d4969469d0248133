-- ===== src/Flow/Rounding.antt =====
-- internal/flowcontrol/base_flow_controller.go: three quarters of a window size as float64 gives them.
use x_fec.Base.{
  ℕ, zero, suc, ◌+◌, ◌*◌, ◌/◌, ◌%◌, ◌^◌, ◌≤◌, ◌<◌, ◌≡◌, ◌∙◌, refl, ap, ltb, ◌==◌, ◌&&◌, ◌||◌, arith,
  inl, inr, Bool-cases,
}
use native.Mathlib.Nat.{div-mul-le_self}
use x_fec.Flow.{round_to, round_from, to_float, threshold}

round_to-le : (unit n : ℕ) → 1 ≤ unit → round_to unit n ≤ n + unit
unfolding round_to
round_to-le unit n p =
    let low : n / unit * unit ≤ n = div-mul-le_self n unit in
    let next : (n / unit + 1) * unit ≡ n / unit * unit + unit = omega arith in
    elim (Bool-cases (ltb (2 * (n % unit)) unit || 2 * (n % unit) == unit && n / unit % 2 == 0)) [
      | inl e ↦ rw e (omega (arith, low))
      | inr e ↦ rw e (omega (arith, low, next))
    ]

-- Rounding adds an eighth at most.
round_from-le : (k unit n : ℕ) → 1 ≤ unit → 8 * unit ≤ n → 8 * round_from k unit n ≤ 9 * n
unfolding round_from
round_from-le zero unit n p l = omega arith
round_from-le (suc k) unit n p l = elim (Bool-cases (ltb n (2 ^ 53 * unit))) [
  | inl e ↦ rw e (omega (arith, round_to-le unit n p, l))
  | inr e ↦ rw e (round_from-le k (2 * unit) n (omega (arith, p)) (ground arith))
]

to_float-le : (n : ℕ) → 8 * to_float n ≤ 9 * n
unfolding to_float
to_float-le n = elim (Bool-cases (ltb n (2 ^ 53))) [
  | inl e ↦ rw e (omega arith)
  | inr e ↦ rw e (round_from-le 12 2 n (omega arith) (ground arith))
]

pub threshold-le : (size : ℕ) → threshold size ≤ size
unfolding threshold
threshold-le size = omega (arith, to_float-le size, to_float-le (to_float size * 3))

to_float_small : (n : ℕ) → n < 2 ^ 53 → to_float n ≡ n
unfolding to_float
to_float_small n l = elim (Bool-cases (ltb n (2 ^ 53))) [
  | inl e ↦ rw e refl
  | inr e ↦ absurd (ground arith)
]

pub threshold_exact : (size : ℕ) → size < 2 ^ 51 → threshold size ≡ size * 3 / 4
unfolding threshold
threshold_exact size l =
    ap (λ x. to_float (x * 3) / 4) (to_float_small size (omega arith))
    ∙ ap (λ x. x / 4) (to_float_small (size * 3) (omega arith))
