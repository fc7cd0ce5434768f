-- ===== src/Domain/Retention/Backoff.antt =====
-- The delay before a failed cleanup is tried again.
use native.Mathlib.Decide.{dec_le, dec_lt}
use native.Mathlib.Nat.{
  pow-suc, one-le-pow, pow-le-pow_right, div-lt_iff_lt-mul, lt-mul-div-succ, mul-le-mul_left,
  mul-div-le, le-div_iff_mul-le,
}
use kiosk_project.Base.{ℕ, suc, ◌+◌, ◌-◌, ◌*◌, ◌/◌, ◌^◌, ◌≤◌, ◌<◌, ◌≡◌, min, arith, ok}
use kiosk_project.Base.Int.{ℤ, pos_part}
use kiosk_project.Domain.Retention.{
  Jitter, capped_backoff, spread, cleanup_retry_delay_milliseconds,
}

scale_pos : (k : ℕ) → 0 < 2 ^ k
scale_pos k = one-le-pow k 2 (omega arith)

spread_upper : (c n d : ℕ) → 0 < d → n ≤ d → spread c n d ≤ c
unfolding spread
spread_upper c n d h k =
    let small : c * (d + n) + d < (c + 1) * (2 * d) = omega (arith, mul-le-mul_left c k) in
    let lt : (c * (d + n) + d) / (2 * d) < c + 1 = (div-lt_iff_lt-mul (omega arith)).1 small in
    omega arith

spread_lower : (c n d : ℕ) → 0 < d → c ≤ 2 * spread c n d
unfolding spread
spread_lower c n d h =
    let q : ℕ = (c * (d + n) + d) / (2 * d) in
    let over : c * (d + n) + d < 2 * d * (q + 1) = lt-mul-div-succ _ (omega arith) in
    elim (dec_le c (2 * q)) [
      | yes p ↦ p
      | no p ↦ absurd (omega (arith, mul-le-mul_left d (let r : 2 * q + 1 ≤ c = omega arith in r)))
    ]

spread_mono : (c e n d : ℕ) → 0 < d → c ≤ e → spread c n d ≤ spread e n d
unfolding spread
spread_mono c e n d h k =
    let q : ℕ = (c * (d + n) + d) / (2 * d) in
    (le-div_iff_mul-le {k = 2 * d} (omega arith)).1
      (omega (arith, mul-div-le (c * (d + n) + d) (2 * d), mul-le-mul_left (d + n) k))

capped_mono : (a b : ℕ) → a ≤ b → capped_backoff a ≤ capped_backoff b
unfolding capped_backoff
capped_mono a b h =
    let le : 2 ^ min (a - 1) 30 ≤ 2 ^ min (b - 1) 30 =
      pow-le-pow_right (omega arith) (omega arith) in
    omega arith

capped_bounds : (a : ℕ) → (5000 ≤ capped_backoff a) × (capped_backoff a ≤ 900000)
unfolding capped_backoff
capped_bounds a = omega (arith, scale_pos (min (a - 1) 30))

-- Each attempt's backoff doubles until it reaches the cap.
pub capped_doubles : (a : ℕ) → 1 ≤ a → capped_backoff (a + 1) ≡ min (2 * capped_backoff a) 900000
unfolding capped_backoff
capped_doubles a h = elim (dec_lt (a - 1) 30) [
  | yes p ↦
      let e : min (a + 1 - 1) 30 ≡ suc (a - 1) = omega arith in
      let f : min (a - 1) 30 ≡ a - 1 = omega arith in rw (e, f) (omega (arith, pow-suc 2 (a - 1)))
  | no p ↦
      let e : min (a + 1 - 1) 30 ≡ 30 = omega arith in
      let f : min (a - 1) 30 ≡ 30 = omega arith in rw (e, f)
]

-- A delay that the code returns lies between half the attempt's backoff and the whole of it, and
-- so between 2.5 seconds and 15 minutes, whatever the jitter.
delay_bounds :
    (attempts : ℤ) (j : Jitter) (delay : ℕ)
    → cleanup_retry_delay_milliseconds attempts j ≡ ok delay
    → (capped_backoff (pos_part attempts) ≤ 2 * delay)
      × (delay ≤ capped_backoff (pos_part attempts))
      × (2500 ≤ delay)
      × (delay ≤ 900000)
unfolding cleanup_retry_delay_milliseconds
delay_bounds attempts j delay e = ground (
  arith,
  scale_pos j.scale,
  spread_upper (capped_backoff (pos_part attempts)) (pos_part j.numerator) (2 ^ j.scale),
  spread_lower (capped_backoff (pos_part attempts)) (pos_part j.numerator) (2 ^ j.scale),
  capped_bounds (pos_part attempts),
)

-- With the same jitter, a later attempt never waits less than an earlier one.
delay_mono :
    (a b : ℤ) (j : Jitter) (x y : ℕ)
    → cleanup_retry_delay_milliseconds a j ≡ ok x
    → cleanup_retry_delay_milliseconds b j ≡ ok y
    → pos_part a ≤ pos_part b
    → x ≤ y
unfolding cleanup_retry_delay_milliseconds
delay_mono a b j x y ea eb h = ground (
  arith,
  scale_pos j.scale,
  capped_mono (pos_part a) (pos_part b),
  spread_mono (capped_backoff (pos_part a)) (capped_backoff (pos_part b)) (pos_part j.numerator)
      (2 ^ j.scale),
)
