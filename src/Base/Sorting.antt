-- ===== src/Base/Sorting.antt =====
-- The stable sort of an array by a comparison: `before a b` says that the comparator does not put
-- `b` strictly first.
use mathlib.Core.Path.{◌≡◌, refl}
use mathlib.Core.Bool.{Bool, true, false, ◌||◌}
use mathlib.Core.Logic.{inl, inr}
use native.Mathlib.Omega.{arith}
use mathlib.Core.List.{List, [], ◌∷◌}
use kiosk_project.Base.Tests.{if◌then◌else◌, Bool-cases}
use kiosk_project.Base.Lists.{All, any}

module _ {ℓ} {A : Type ℓ} (before : A → A → Bool) where
  unfoldable pub insert_by : A → List A → List A
  insert_by x [] = x ∷ []
  insert_by x (y ∷ ys) = if before x y then x ∷ y ∷ ys else y ∷ insert_by x ys

  unfoldable pub sort_by : List A → List A
  unfolding insert_by
  sort_by [] = []
  sort_by (x ∷ xs) = insert_by x (sort_by xs)

  pub any-insert_by :
      (p : A → Bool) (x : A) (ys : List A) → any p (insert_by x ys) ≡ (p x || any p ys)
  unfolding insert_by
  any-insert_by p x [] = refl
  any-insert_by p x (y ∷ ys) = ground (arith, any-insert_by p x ys)

  -- A sort keeps the elements, as any test sees them.
  pub any-sort_by : (p : A → Bool) (xs : List A) → any p (sort_by xs) ≡ any p xs
  unfolding sort_by
  any-sort_by p [] = refl
  any-sort_by p (x ∷ xs) = ground (arith, any-insert_by p x (sort_by xs), any-sort_by p xs)

  All-insert_by {κ} :
      (P : A → Type κ) (x : A) (ys : List A) → P x → All P ys → All P (insert_by x ys)
  unfolding insert_by
  All-insert_by P x [] h a = (h, tt)
  All-insert_by P x (y ∷ ys) h a = elim (Bool-cases (before x y)) [
    | inl e ↦ rw e (h, a)
    | inr e ↦ rw e (a.0, All-insert_by P x ys h a.1)
  ]

  pub All-sort_by {κ} : (P : A → Type κ) (xs : List A) → All P xs → All P (sort_by xs)
  unfolding sort_by
  All-sort_by P [] a = tt
  All-sort_by P (x ∷ xs) a = All-insert_by P x (sort_by xs) a.0 (All-sort_by P xs a.1)

  -- Each element stands before all that follow it.
  abbrev pub IsOrdered : List A → Type 0
  IsOrdered [] = Unit
  IsOrdered (x ∷ xs) = All (λ y. before x y ≡ true) xs × IsOrdered xs

  -- A sorted list is left as it is.
  pub sort_by-IsOrdered : (xs : List A) → IsOrdered xs → sort_by xs ≡ xs
  unfolding sort_by insert_by
  sort_by-IsOrdered [] o = refl
  sort_by-IsOrdered (x ∷ xs) o = rw (sort_by-IsOrdered xs o.1) (in_front xs o.0)
    where
      in_front : (ys : List A) → All (λ y. before x y ≡ true) ys → insert_by x ys ≡ x ∷ ys
      in_front [] a = refl
      in_front (y ∷ ys) a = rw a.0

  module _ (total : (x y : A) → before x y ≡ false → before y x ≡ true)
      (trans : (x y z : A) → before x y ≡ true → before y z ≡ true → before x z ≡ true) where
    All-before :
        (x y : A) (zs : List A)
        → before x y ≡ true
        → All (λ z. before y z ≡ true) zs
        → All (λ z. before x z ≡ true) zs
    All-before x y [] h a = tt
    All-before x y (z ∷ zs) h a = (trans x y z h a.0, All-before x y zs h a.1)

    insert_by-IsOrdered : (x : A) (ys : List A) → IsOrdered ys → IsOrdered (insert_by x ys)
    unfolding insert_by
    insert_by-IsOrdered x [] o = (tt, tt)
    insert_by-IsOrdered x (y ∷ ys) o = elim (Bool-cases (before x y)) [
      | inl e ↦ rw e ((e, All-before x y ys e o.0), o)
      | inr e ↦ rw e (
        All-insert_by (λ z. before y z ≡ true) x ys (total x y e) o.0,
        insert_by-IsOrdered x ys o.1,
      )
    ]

    pub IsOrdered-sort_by : (xs : List A) → IsOrdered (sort_by xs)
    unfolding sort_by
    IsOrdered-sort_by [] = tt
    IsOrdered-sort_by (x ∷ xs) = insert_by-IsOrdered x (sort_by xs) (IsOrdered-sort_by xs)
