-- ===== src/Base/Texts.antt =====
-- Texts that the program walks are lists of UTF-16 code units; those that it only compares are
-- native strings.
use Prim.Native.Nat.{ℕ, zero, suc}
use Prim.Native.Char.{code}
use Prim.Native.String.{String}
use mathlib.Core.Path.{◌≡◌, refl}
use mathlib.Core.Bool.{Bool, true, false, ◌&&◌}
use mathlib.Core.List.{List, [], ◌∷◌}
use kiosk_project.Base.Tests.{==_iff, and_true, leb, ◌==◌}
pub use text.Mathlib.Text.{◌==◌ as str_eq}
pub use text.Mathlib.TextEquality.{eq_iff}

abbrev pub codes : String → List ℕ
codes (String.◌∷◌ letter rest) = code letter ∷ codes rest
codes String.[] = []

-- `[lo-hi]` of a regular expression.
abbrev pub in_range : ℕ → ℕ → ℕ → Bool
in_range lo hi c = leb lo c && leb c hi

abbrev pub is_digit : ℕ → Bool
is_digit = in_range b'0' b'9'

-- `key.startsWith(prefix)`.
abbrev pub starts_with : List ℕ → List ℕ → Bool
starts_with key [] = true
starts_with [] (p ∷ ps) = false
starts_with (c ∷ key) (p ∷ ps) = c == p && starts_with key ps

-- A regular expression that is one character class after another, anchored at both ends.
abbrev pub matches_classes : List (ℕ → Bool) → List ℕ → Bool
matches_classes [] [] = true
matches_classes [] (c ∷ cs) = false
matches_classes (p ∷ ps) [] = false
matches_classes (p ∷ ps) (c ∷ cs) = p c && matches_classes ps cs

pub str_eq_refl : (a : String) → str_eq a a ≡ true
str_eq_refl a = (eq_iff a a).1 refl

-- `===` of texts.
abbrev pub codes_eq : List ℕ → List ℕ → Bool
codes_eq [] [] = true
codes_eq [] (d ∷ ds) = false
codes_eq (c ∷ cs) [] = false
codes_eq (c ∷ cs) (d ∷ ds) = c == d && codes_eq cs ds

pub codes_eq-true : (a b : List ℕ) → codes_eq a b ≡ true → a ≡ b
codes_eq-true [] [] h = refl
codes_eq-true [] (d ∷ ds) h = cc
codes_eq-true (c ∷ cs) [] h = cc
codes_eq-true (c ∷ cs) (d ∷ ds) h =
    let (same_code, same_rest) = and_true (c == d) (codes_eq cs ds) h in
    let e : c ≡ d = (==_iff c d).0 same_code in
    let es : cs ≡ ds = codes_eq-true cs ds same_rest in cc

pub codes_eq_refl : (a : List ℕ) → codes_eq a a ≡ true
codes_eq_refl [] = refl
codes_eq_refl (c ∷ cs) = let e : (c == c) ≡ true = (==_iff c c).1 refl in rw e (codes_eq_refl cs)

-- `text.slice(0, n)` of a text whose letters are one code unit each.
abbrev pub slice : ℕ → String → String
slice zero text = String.[]
slice (suc n) String.[] = String.[]
slice (suc n) (String.◌∷◌ letter rest) = String.◌∷◌ letter (slice n rest)
