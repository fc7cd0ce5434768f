-- ===== src/Printer/Submission/Repeats.antt =====
-- Lists of texts that do not repeat; the checks of packages/printer-adapters/src/submission.ts keep
-- one.
use kiosk_project.Base.{
  ◌+◌, ◌≤◌, ◌≡◌, String, str_eq, eq_iff, Bool, true, false, List, [], ◌∷◌, All, any, if◌then◌else◌,
  length, arith, Bool-cases, inl, inr,
}

abbrev pub is_in : String → List String → Bool
is_in x xs = any (str_eq x) xs

-- No text stands twice.
abbrev pub NoRepeat : List String → Type 0
NoRepeat [] = Unit
NoRepeat (x ∷ xs) = (is_in x xs ≡ false) × NoRepeat xs

remove : String → List String → List String
remove x [] = []
remove x (y ∷ ys) = let rest = remove x ys in if str_eq x y then ys else y ∷ rest

length-remove :
    (x : String) (ys : List String) → is_in x ys ≡ true → length (remove x ys) + 1 ≡ length ys
unfolding remove
length-remove x [] h = cc
length-remove x (y ∷ ys) h = ground (arith, length-remove x ys)

is_in-remove :
    (x z : String) (ys : List String)
    → str_eq x z ≡ false
    → is_in z ys ≡ true
    → is_in z (remove x ys) ≡ true
unfolding remove
is_in-remove x z [] e h = cc
is_in-remove x z (y ∷ ys) e h =
    ground (arith, is_in-remove x z ys, eq_iff x y, eq_iff z y, eq_iff x z)

apart :
    (x z : String) (xs : List String)
    → is_in x (z ∷ xs) ≡ false
    → (str_eq x z ≡ false) × (is_in x xs ≡ false)
apart x z xs h = ground arith

All-remove :
    (x : String) (xs ys : List String)
    → is_in x xs ≡ false
    → All (λ z. is_in z ys ≡ true) xs
    → All (λ z. is_in z (remove x ys) ≡ true) xs
All-remove x [] ys h a = tt
All-remove x (z ∷ xs) ys h (u, us) =
    let (e, k) = apart x z xs h in (is_in-remove x z ys e u, All-remove x xs ys k us)

-- Texts that do not repeat, each of another list, are no more than that list has.
no_more :
    (xs ys : List String) → NoRepeat xs → All (λ z. is_in z ys ≡ true) xs → length xs ≤ length ys
no_more [] ys d a = omega arith
no_more (x ∷ xs) ys (h, d) (u, us) =
    omega (arith, no_more xs (remove x ys) d (All-remove x xs ys h us), length-remove x ys u)

-- If they are as many, they are all of it.
pub covers_each :
    (xs ys : List String) (y : String)
    → NoRepeat xs
    → All (λ z. is_in z ys ≡ true) xs
    → length xs ≡ length ys
    → is_in y ys ≡ true
    → is_in y xs ≡ true
covers_each xs ys y d a e h = elim (Bool-cases (is_in y xs)) [
  | inl k ↦ k
  | inr k ↦
      let fewer = no_more xs (remove y ys) d (All-remove y xs ys k a) in
      let one_less = length-remove y ys h in absurd (omega (arith, fewer, one_less, e))
]
