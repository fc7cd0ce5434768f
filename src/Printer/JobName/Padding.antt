-- ===== src/Printer/JobName/Padding.antt =====
-- The three digits of a position or a count in packages/printer-adapters/src/operation-journal.ts.
use kiosk_project.Base.{
  ℕ, zero, suc, ◌-◌, ◌<◌, ◌≡◌, refl, ◌∙◌, List, [], ◌∷◌, ◌++◌, arith, length, length-append,
  replicate,
}
use kiosk_project.Domain.PageRanges.{decimal, number}
use kiosk_project.Domain.PageRanges.Parse.{
  AllDigits, decimal-digits, decimal_length, number-decimal_fuel,
}
use kiosk_project.Domain.PageRanges.RoundTrip.{All-append}
use kiosk_project.Printer.JobName.{pad}

number-zeros : (k : ℕ) (xs : List ℕ) → number (replicate k b'0' ++ xs) ≡ number xs
number-zeros zero xs = refl
number-zeros (suc k) xs = number-zeros k xs

AllDigits-zeros : (k : ℕ) → AllDigits (replicate k b'0')
AllDigits-zeros zero = tt
AllDigits-zeros (suc k) = (refl, AllDigits-zeros k)

length-replicate : (k c : ℕ) → length (replicate k c) ≡ k
length-replicate zero c = omega arith
length-replicate (suc k) c = omega (arith, length-replicate k c)

pad-digits : (n : ℕ) → AllDigits (pad n)
unfolding pad
pad-digits n = All-append _ _ _ (AllDigits-zeros (3 - length (decimal n))) (decimal-digits n)

number-pad : (n : ℕ) → number (pad n) ≡ n
unfolding pad decimal
number-pad n =
    number-zeros (3 - length (decimal n)) (decimal n) ∙ number-decimal_fuel (suc n) n (omega arith)

length-pad : (n : ℕ) → n < 1000 → length (pad n) ≡ 3
unfolding pad decimal
length-pad n h = omega (
  arith,
  decimal_length (suc n) n 2 (omega arith) h,
  length-append (replicate (3 - length (decimal n)) b'0') (decimal n),
  length-replicate (3 - length (decimal n)) b'0',
)

-- Three digits, and the number that they are.
abbrev Padded : ℕ → Type 0
Padded n =
    (a b c : ℕ) × (pad n ≡ a ∷ b ∷ c ∷ [])
    × (number (a ∷ b ∷ c ∷ []) ≡ n)
    × AllDigits (a ∷ b ∷ c ∷ [])

three : (n : ℕ) (xs : List ℕ) → pad n ≡ xs → length xs ≡ 3 → number xs ≡ n → AllDigits xs → Padded n
three n [] e h v d = absurd (omega arith)
three n (a ∷ []) e h v d = absurd (omega arith)
three n (a ∷ b ∷ []) e h v d = absurd (omega arith)
three n (a ∷ b ∷ c ∷ []) e h v d = (a, b, c, e, v, d)
three n (a ∷ b ∷ c ∷ x ∷ xs) e h v d = absurd (omega arith)

pub padded : (n : ℕ) → n < 1000 → Padded n
padded n h = three n (pad n) refl (length-pad n h) (number-pad n) (pad-digits n)
