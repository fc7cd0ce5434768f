-- ===== src/Base/Numbers.antt =====
-- Numbers of the source that hold integers, and the tests that it makes on them.
use kiosk_project.Base.{ℕ, ◌+◌, ◌^◌, ◌-◌, Bool, ◌&&◌, leb, if◌then◌else◌}
use kiosk_project.Base.Int.{ℤ, pos_part, neg_part, leb_ℤ}

abbrev pub max_safe_integer : ℕ
max_safe_integer = 2 ^ 53 - 1

-- `Number.isSafeInteger` at an integer.
abbrev pub is_safe_integer : ℤ → Bool
is_safe_integer n = leb (pos_part n) max_safe_integer && leb (neg_part n) max_safe_integer

-- `Math.max`.
abbrev pub max_ℤ : ℤ → ℤ → ℤ
max_ℤ a b = if leb_ℤ a b then b else a

-- `Math.abs`.
abbrev pub magnitude : ℤ → ℕ
magnitude n = pos_part n + neg_part n
