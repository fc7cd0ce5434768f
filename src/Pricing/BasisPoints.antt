-- ===== src/Pricing/BasisPoints.antt =====
-- The one rounded division of the pricing code.
use native.Mathlib.Nat.{mul-le-mul_left}
use kiosk_project.Base.{ap, subst, ◌∙◌, ℕ, ◌+◌, ◌*◌, ◌%◌, ◌≤◌, ◌<◌, ◌≡◌, ◌⊎◌, arith, ok}
use kiosk_project.Base.Int.{ℤ, pos, negsuc, ◌*ℤ◌, ◌≤ℤ◌}
use kiosk_project.Base.Numbers.{magnitude}
use kiosk_project.Pricing.{
  RoundingMode, half_up, half_even, away_from_zero, toward_zero, rounded, apply_basis_points,
  with_sign_of,
}

-- What each mode promises of the quotient `q` of `m` by 10,000.
abbrev pub IsRounding : RoundingMode → ℕ → ℕ → Type 0
IsRounding toward_zero m q = (q * 10000 ≤ m) × (m < q * 10000 + 10000)
IsRounding away_from_zero m q = (m ≤ q * 10000) × (q * 10000 < m + 10000)
IsRounding half_up m q = (2 * m < 2 * (q * 10000) + 10000) × (2 * (q * 10000) ≤ 2 * m + 10000)
IsRounding half_even m q =
    (2 * m ≤ 2 * (q * 10000) + 10000)
    × (2 * (q * 10000) ≤ 2 * m + 10000)
    × ((2 * m ≡ 2 * (q * 10000) + 10000) ⊎ (2 * (q * 10000) ≡ 2 * m + 10000) → q % 2 ≡ 0)

pub rounded-IsRounding : (mode : RoundingMode) (m : ℕ) → IsRounding mode m (rounded mode m)
unfolding rounded
rounded-IsRounding toward_zero m = ground arith
rounded-IsRounding away_from_zero m = ground arith
rounded-IsRounding half_up m = ground arith
rounded-IsRounding half_even m = ground arith

-- A larger amount never rounds to less.
pub rounded_mono : (mode : RoundingMode) (m n : ℕ) → m ≤ n → rounded mode m ≤ rounded mode n
rounded_mono toward_zero m n h =
    omega (arith, rounded-IsRounding toward_zero m, rounded-IsRounding toward_zero n)
rounded_mono away_from_zero m n h =
    omega (arith, rounded-IsRounding away_from_zero m, rounded-IsRounding away_from_zero n)
rounded_mono half_up m n h =
    omega (arith, rounded-IsRounding half_up m, rounded-IsRounding half_up n)
rounded_mono half_even m n h =
    grind (arith, rounded-IsRounding half_even m, rounded-IsRounding half_even n)

magnitude-mul : (a b : ℤ) → magnitude (a *ℤ b) ≡ magnitude a * magnitude b
unfolding ◌*ℤ◌
magnitude-mul (pos a) (pos b) = ground arith
magnitude-mul (pos a) (negsuc b) = ground arith
magnitude-mul (negsuc a) (pos b) = ground arith
magnitude-mul (negsuc a) (negsuc b) = ground arith

-- A successful call rounds the magnitude of the exact product once, by the mode, and gives it the
-- product's sign.
pub apply_basis_points_ok :
    (a b : ℤ) (mode : RoundingMode) (r : ℤ)
    → apply_basis_points a b mode ≡ ok r
    → r ≡ with_sign_of (a *ℤ b) (rounded mode (magnitude a * magnitude b))
unfolding apply_basis_points
apply_basis_points_ok a b mode r e = ground (arith, magnitude-mul a b)

magnitude-with_sign_of : (a : ℤ) (n : ℕ) → magnitude (with_sign_of a n) ≡ n
magnitude-with_sign_of (pos a) n = ground arith
magnitude-with_sign_of (negsuc a) n = ground arith

-- Whatever the signs and the mode, the magnitude of what a successful call returns is the quotient
-- of the magnitudes' product by 10,000, rounded as the mode says.
pub apply_basis_points-IsRounding :
    (a b : ℤ) (mode : RoundingMode) (r : ℤ)
    → apply_basis_points a b mode ≡ ok r
    → IsRounding mode (magnitude a * magnitude b) (magnitude r)
apply_basis_points-IsRounding a b mode r e =
    let m : ℕ = magnitude a * magnitude b in
    let same : magnitude r ≡ rounded mode m =
      ap magnitude (apply_basis_points_ok a b mode r e)
      ∙ magnitude-with_sign_of (a *ℤ b) (rounded mode m) in
    rw same (rounded-IsRounding mode m)

rounded_at_scale : (mode : RoundingMode) (q : ℕ) → rounded mode (q * 10000) ≡ q
unfolding rounded
rounded_at_scale mode q = ground arith

-- An adjustment of at most 100% is no larger than the amount that it adjusts.
pub apply_basis_points_le :
    (a b : ℤ) (mode : RoundingMode) (r : ℤ)
    → magnitude b ≤ 10000
    → apply_basis_points a b mode ≡ ok r
    → magnitude r ≤ magnitude a
apply_basis_points_le a b mode r h e =
    let m : ℕ = magnitude a * magnitude b in
    let same : magnitude r ≡ rounded mode m =
      ap magnitude (apply_basis_points_ok a b mode r e)
      ∙ magnitude-with_sign_of (a *ℤ b) (rounded mode m) in
    rw same (
      subst (λ t. rounded mode m ≤ t) (rounded_at_scale mode (magnitude a))
        (rounded_mono mode m (magnitude a * 10000) (mul-le-mul_left (magnitude a) h)))

-- A rate that is not negative leaves the sign of the amount.
pub apply_basis_points_nonneg :
    (a b : ℤ) (mode : RoundingMode) (r : ℤ)
    → pos 0 ≤ℤ a
    → pos 0 ≤ℤ b
    → apply_basis_points a b mode ≡ ok r
    → pos 0 ≤ℤ r
unfolding ◌*ℤ◌
apply_basis_points_nonneg (pos a) (pos b) mode r ha hb e =
    ground (arith, apply_basis_points_ok (pos a) (pos b) mode r e)
apply_basis_points_nonneg a (negsuc b) mode r ha hb e = absurd (omega arith)
apply_basis_points_nonneg (negsuc a) b mode r ha hb e = absurd (omega arith)
