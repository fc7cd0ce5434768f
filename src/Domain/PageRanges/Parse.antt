-- ===== src/Domain/PageRanges/Parse.antt =====
-- Parsing what `formatPageRanges` prints gives the ranges back.
use kiosk_project.Base.{
  ℕ, zero, suc, ◌+◌, ◌/◌, ◌%◌, ◌^◌, ◌≤◌, ◌<◌, ◌≡◌, refl, ap, true, false, ◌&&◌, List, [], ◌∷◌, ◌++◌,
  foldl, All, leb, ltb, arith, Bool-cases, inl, inr, ◌==◌, ==_iff, is_digit, length, length-append,
  some, ok,
}
use native.Mathlib.Nat.{pow-suc}
use mathlib.Core.List.{append-nil}
use kiosk_project.Domain.PageRanges.{
  with_end, PageRange, number, add_digit, decimal, decimal_fuel, take_digits, drop_digits,
  skip_spaces, is_space, read_number, read_end, read_segment, parse_segment, format_range,
}

-- A text of digits.
abbrev pub AllDigits : List ℕ → Type 0
AllDigits = All (λ c. is_digit c ≡ true)

AllDigits-append : (xs ys : List ℕ) → AllDigits xs → AllDigits ys → AllDigits (xs ++ ys)
AllDigits-append [] ys a b = b
AllDigits-append (x ∷ xs) ys a b = (a.0, AllDigits-append xs ys a.1 b)

decimal_digits : (f n : ℕ) → AllDigits (decimal_fuel f n)
unfolding decimal_fuel
decimal_digits zero n = tt
decimal_digits (suc f) n = elim (Bool-cases (ltb n 10)) [
  | inl e ↦ rw e (ground arith, tt)
  | inr e ↦ rw e (AllDigits-append _ _ (decimal_digits f (n / 10)) (ground arith, tt))
]

pub decimal-digits : (n : ℕ) → AllDigits (decimal n)
unfolding decimal
decimal-digits n = decimal_digits (suc n) n

foldl-append :
    (n : ℕ) (xs ys : List ℕ)
    → foldl add_digit n (xs ++ ys) ≡ foldl add_digit (foldl add_digit n xs) ys
foldl-append n [] ys = refl
foldl-append n (x ∷ xs) ys = foldl-append (add_digit n x) xs ys

pub number-decimal_fuel : (f n : ℕ) → n < f → number (decimal_fuel f n) ≡ n
unfolding decimal_fuel
number-decimal_fuel zero n h = elim h [ ]
number-decimal_fuel (suc f) n h = elim (Bool-cases (ltb n 10)) [
  | inl e ↦ rw e (omega arith)
  | inr e ↦
      rw (e, foldl-append 0 (decimal_fuel f (n / 10)) ((b'0' + n % 10) ∷ []))
        (let small : n / 10 < f = ground arith in
          omega (arith, number-decimal_fuel f (n / 10) small))
]

-- The number of digits is positive, and at most `k` for a number below 10 ^ k.
pub decimal_length :
    (f n k : ℕ)
    → n < f
    → n < 10 ^ suc k
    → (1 ≤ length (decimal_fuel f n)) × (length (decimal_fuel f n) ≤ suc k)
unfolding decimal_fuel
decimal_length zero n k h b = elim h [ ]
decimal_length (suc f) n zero h b = let e : ltb n 10 ≡ true = ground arith in rw e (omega arith)
decimal_length (suc f) n (suc k) h b = elim (Bool-cases (ltb n 10)) [
  | inl e ↦ rw e (omega arith)
  | inr e ↦
      let small : n / 10 < f = ground arith in
      let below : n / 10 < 10 ^ suc k = omega (arith, pow-suc 10 (suc k)) in
      rw (e, length-append (decimal_fuel f (n / 10)) ((b'0' + n % 10) ∷ []))
        (omega (arith, decimal_length f (n / 10) k small below))
]

take_digits-append :
    (ds rest : List ℕ) → AllDigits ds → take_digits rest ≡ [] → take_digits (ds ++ rest) ≡ ds
unfolding take_digits
take_digits-append [] rest a h = h
take_digits-append (d ∷ ds) rest a h = rw a.0 (ap (◌∷◌ d) (take_digits-append ds rest a.1 h))

drop_digits-append :
    (ds rest : List ℕ) → AllDigits ds → drop_digits rest ≡ rest → drop_digits (ds ++ rest) ≡ rest
unfolding drop_digits
drop_digits-append [] rest a h = h
drop_digits-append (d ∷ ds) rest a h = rw a.0 (drop_digits-append ds rest a.1 h)

-- Where a run of digits stops: neither a digit nor a space comes next.
record Stops (rest : List ℕ) : Type 0 where
  taken : take_digits rest ≡ []
  dropped : drop_digits rest ≡ rest
  skipped : skip_spaces rest ≡ rest

Stops-nil : Stops []
unfolding take_digits drop_digits skip_spaces
Stops-nil = record { taken = refl; dropped = refl; skipped = refl }

Stops-dash : (rest : List ℕ) → Stops (b'-' ∷ rest)
unfolding take_digits drop_digits skip_spaces
Stops-dash rest = record { taken = refl; dropped = refl; skipped = refl }

digit_not_space : (c : ℕ) → is_digit c ≡ true → is_space c ≡ false
unfolding is_space
digit_not_space c h = ground arith

skip_spaces-digits :
    (ds rest : List ℕ) → AllDigits ds → 1 ≤ length ds → skip_spaces (ds ++ rest) ≡ ds ++ rest
unfolding skip_spaces
skip_spaces-digits [] rest a h = absurd (omega arith)
skip_spaces-digits (d ∷ ds) rest a h = rw (digit_not_space d a.0)

pub below_million : (n : ℕ) → n < 1000000 → (1 ≤ length (decimal n)) × (length (decimal n) ≤ 6)
unfolding decimal
below_million n h = decimal_length (suc n) n 5 (omega arith) h

read_number-decimal :
    (n : ℕ) (rest : List ℕ)
    → n < 1000000
    → Stops rest
    → read_number (decimal n ++ rest) ≡ some (n, rest)
unfolding read_number
read_number-decimal n rest h s =
    let a : AllDigits (decimal n) = decimal-digits n in
    let v : number (decimal n) ≡ n =
      unfold decimal in number-decimal_fuel (suc n) n (omega arith) in
    let (low, high) = below_million n h in
    let size : (leb 1 (length (decimal n)) && leb (length (decimal n)) 6) ≡ true = ground arith in
    rw (
      skip_spaces-digits (decimal n) rest a low,
      take_digits-append (decimal n) rest a s.taken,
      drop_digits-append (decimal n) rest a s.dropped,
      size,
      s.skipped,
      v,
    )

read_end-nil : (n : ℕ) → read_end n [] ≡ some n
unfolding read_end
read_end-nil n = refl

read_end-dash : (a b : ℕ) → b < 1000000 → read_end a (b'-' ∷ decimal b) ≡ some b
unfolding read_end
read_end-dash a b h = rw (← append-nil (decimal b), read_number-decimal b [] h Stops-nil)

read_segment-format_range :
    (r : PageRange) → r.0 < 1000000 → r.1 < 1000000 → read_segment (format_range r) ≡ some r
unfolding read_segment format_range
read_segment-format_range (a, b) ha hb = elim (Bool-cases (a == b)) [
  | inl e ↦
      rw
        (
          e,
          ← append-nil (decimal a),
          read_number-decimal a [] ha Stops-nil,
          read_end-nil a,
          with_end,
        )
        (ground (arith, ==_iff a b))
  | inr e ↦ rw (
    e,
    read_number-decimal a (b'-' ∷ decimal b) ha (Stops-dash (decimal b)),
    read_end-dash a b hb,
    with_end,
  )
]

-- A range that fits the document parses to itself.
pub parse_segment-format_range :
    (n : ℕ) (r : PageRange)
    → n < 1000000
    → 1 ≤ r.0
    → r.0 ≤ r.1
    → r.1 ≤ n
    → parse_segment n (format_range r) ≡ ok r
unfolding parse_segment
parse_segment-format_range n r h a b c =
    rw (read_segment-format_range r (omega arith) (omega arith)) (ground arith)
