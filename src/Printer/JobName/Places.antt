-- ===== src/Printer/JobName/Places.antt =====
-- The places of a job name's pattern in packages/printer-adapters/src/operation-journal.ts.
use kiosk_project.Base.{
  ℕ, zero, suc, ◌≡◌, refl, ap, Bool, true, false, List, [], ◌∷◌, ◌++◌, All, arith, is_digit, length,
  replicate, matches_classes, and_true,
}
use kiosk_project.Domain.PageRanges.{is_space}
use kiosk_project.Domain.PageRanges.Parse.{AllDigits}
use kiosk_project.Domain.PageRanges.RoundTrip.{NoSpaces}
use kiosk_project.Domain.ObjectKeys.{
  session_id_classes, to_lower_case, lower, is_hex, is_dash, is_version, is_variant,
}
use kiosk_project.Printer.JobName.{is_place}

pub matches-append :
    (ps qs : List (ℕ → Bool)) (xs ys : List ℕ)
    → matches_classes ps xs ≡ true
    → matches_classes qs ys ≡ true
    → matches_classes (ps ++ qs) (xs ++ ys) ≡ true
matches-append [] qs [] ys h k = k
matches-append [] qs (x ∷ xs) ys h k = cc
matches-append (p ∷ ps) qs [] ys h k = cc
matches-append (p ∷ ps) qs (x ∷ xs) ys h k =
    let (here, there) = and_true (p x) _ h in rw here (matches-append ps qs xs ys there k)

abbrev Weaker : (ℕ → Bool) → Type 0
Weaker p = (c : ℕ) → p c ≡ true → is_place c ≡ true

pub places :
    (ps : List (ℕ → Bool)) (xs : List ℕ)
    → All Weaker ps
    → matches_classes ps xs ≡ true
    → (matches_classes (replicate (length ps) is_place) xs ≡ true)
      × (length xs ≡ length ps)
      × All (λ c. is_place c ≡ true) xs
places [] [] w h = (refl, refl, tt)
places [] (x ∷ xs) w h = cc
places (p ∷ ps) [] w h = cc
places (p ∷ ps) (x ∷ xs) (w, ws) h =
    let (here, there) = and_true (p x) _ h in
    let (matched, same_length, all_places) = places ps xs ws there in
    (rw (w x here) matched, omega (arith, same_length), (w x here, all_places))

hex-Weaker : Weaker is_hex
hex-Weaker c h = ground arith

version-Weaker : Weaker is_version
version-Weaker c h = ground arith

variant-Weaker : Weaker is_variant
variant-Weaker c h = ground arith

dash-Weaker : Weaker is_dash
dash-Weaker c h = ground arith

hexes : (k : ℕ) (ps : List (ℕ → Bool)) → All Weaker ps → All Weaker (replicate k is_hex ++ ps)
hexes zero ps w = w
hexes (suc k) ps w = (hex-Weaker, hexes k ps w)

pub session_id_classes-Weaker : All Weaker session_id_classes
unfolding session_id_classes
session_id_classes-Weaker =
    let node : List (ℕ → Bool) = is_dash ∷ replicate 12 is_hex in
    let clock : List (ℕ → Bool) = is_dash ∷ is_variant ∷ (replicate 3 is_hex ++ node) in
    let high : List (ℕ → Bool) = is_dash ∷ is_version ∷ (replicate 3 is_hex ++ clock) in
    let middle : List (ℕ → Bool) = is_dash ∷ (replicate 4 is_hex ++ high) in
    hexes 8 middle (
      dash-Weaker,
      hexes 4 high (
        dash-Weaker,
        (
          version-Weaker,
          hexes 3 clock (dash-Weaker, (variant-Weaker, hexes 3 node (dash-Weaker, hexes 12 [] tt))),
        ),
      ),
    )

place_not_space : (c : ℕ) → is_place (lower c) ≡ true → is_space c ≡ false
unfolding is_space
place_not_space c h = ground arith

digit_not_space : (c : ℕ) → is_digit c ≡ true → is_space c ≡ false
unfolding is_space
digit_not_space c h = ground arith

digit-lower : (c : ℕ) → is_digit c ≡ true → lower c ≡ c
digit-lower c h = ground arith

pub places-NoSpaces : (xs : List ℕ) → All (λ c. is_place c ≡ true) (to_lower_case xs) → NoSpaces xs
unfolding to_lower_case
places-NoSpaces [] h = tt
places-NoSpaces (x ∷ xs) (h, hs) = (place_not_space x h, places-NoSpaces xs hs)

pub to_lower_case-append :
    (xs ys : List ℕ) → to_lower_case (xs ++ ys) ≡ to_lower_case xs ++ to_lower_case ys
unfolding to_lower_case
to_lower_case-append [] ys = refl
to_lower_case-append (x ∷ xs) ys = ap (◌∷◌ (lower x)) (to_lower_case-append xs ys)

pub length-to_lower_case : (xs : List ℕ) → length (to_lower_case xs) ≡ length xs
unfolding to_lower_case
length-to_lower_case [] = refl
length-to_lower_case (x ∷ xs) = ap suc (length-to_lower_case xs)

pub lower-digits : (xs : List ℕ) → AllDigits xs → to_lower_case xs ≡ xs
unfolding to_lower_case
lower-digits [] h = refl
lower-digits (x ∷ xs) (h, hs) = rw (digit-lower x h, lower-digits xs hs) refl

pub digits-NoSpaces : (xs : List ℕ) → AllDigits xs → NoSpaces xs
digits-NoSpaces [] h = tt
digits-NoSpaces (x ∷ xs) (h, hs) = (digit_not_space x h, digits-NoSpaces xs hs)
