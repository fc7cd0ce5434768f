-- ===== src/Database/Tables.antt =====
-- `updateMany` of the database client on a table, and the events that transactions emit.
use mathlib.Core.List.{Memᴰ}
use mathlib.Core.List.Memᴰ.{head, tail}
use kiosk_project.Base.{
  sym, ◌⊎◌, subst, ℕ, suc, ◌≡◌, refl, Bool, true, false, List, [], ◌∷◌, arith, if◌then◌else◌,
  filter, find, none, All, Bool-cases, inl, inr, Option, some,
}

module _ {ℓ} {A : Type ℓ} where
  unfoldable pub update_many : (A → Bool) → (A → A) → List A → List A
  update_many p f [] = []
  update_many p f (x ∷ xs) = (if p x then f x else x) ∷ update_many p f xs

  -- The `count` that `updateMany` answers.
  unfoldable pub matching : (A → Bool) → List A → ℕ
  matching p [] = 0
  matching p (x ∷ xs) = if p x then suc (matching p xs) else matching p xs

  -- An update does not change the rows of a kind that it neither changes nor makes.
  pub filter-update_many :
      (q p : A → Bool) (f : A → A) (xs : List A)
      → ((x : A) → p x ≡ true → q x ≡ false)
      → ((x : A) → p x ≡ true → q (f x) ≡ false)
      → filter q (update_many p f xs) ≡ filter q xs
  unfolding update_many
  filter-update_many q p f [] h k = refl
  filter-update_many q p f (x ∷ xs) h k = ground (arith, h x, k x, filter-update_many q p f xs h k)

  pub All-update_many {κ} :
      (P : A → Type κ) (p : A → Bool) (f : A → A) (xs : List A)
      → ((x : A) → p x ≡ true → P (f x))
      → ((x : A) → p x ≡ false → P x)
      → All P (update_many p f xs)
  unfolding update_many
  All-update_many P p f [] h k = tt
  All-update_many P p f (x ∷ xs) h k = (
    elim (Bool-cases (p x)) [ inl e ↦ rw e (h x e) | inr e ↦ rw e (k x e) ],
    All-update_many P p f xs h k,
  )

  pub find-none : (p : A → Bool) (xs : List A) → find p xs ≡ none → matching p xs ≡ 0
  unfolding matching
  find-none p [] e = refl
  find-none p (x ∷ xs) e = ground (arith, find-none p xs)

  -- Where a row of an updated table comes from.
  pub member-update_many :
      (p : A → Bool) (f : A → A) (xs : List A) {x : A}
      → Memᴰ x (update_many p f xs)
      → Memᴰ x xs ⊎ ((y : A) × Memᴰ y xs × (p y ≡ true) × (x ≡ f y))
  unfolding update_many
  member-update_many p f [] m = elim m [ ]
  member-update_many p f (y ∷ ys) {x = x} (head e) = elim (Bool-cases (p y)) [
    | inl h ↦ inr (y, head refl, h, subst (λ b. x ≡ (if b then f y else y)) h e)
    | inr h ↦ inl (head (subst (λ b. x ≡ (if b then f y else y)) h e))
  ]
  member-update_many p f (y ∷ ys) (tail m) = elim (member-update_many p f ys m) [
    | inl k ↦ inl (tail k)
    | inr (z, k, h, e) ↦ inr (z, tail k, h, e)
  ]

  -- A row that an update does not name stays.
  pub update_many-member :
      (p : A → Bool) (f : A → A) (xs : List A) {x : A}
      → Memᴰ x xs
      → p x ≡ false
      → Memᴰ x (update_many p f xs)
  unfolding update_many
  update_many-member p f [] m h = elim m [ ]
  update_many-member p f (y ∷ ys) {x = x} (head e) h =
      let k : p y ≡ false = subst (λ z. p z ≡ false) e h in
      head (subst (λ b. x ≡ (if b then f y else y)) (sym k) e)
  update_many-member p f (y ∷ ys) (tail m) h = tail (update_many-member p f ys m h)

  -- The rows of a filter.
  pub filter-member :
      (q : A → Bool) (xs : List A) {x : A} → Memᴰ x xs → q x ≡ true → Memᴰ x (filter q xs)
  filter-member q [] m h = elim m [ ]
  filter-member q (y ∷ ys) {x = x} (head e) h =
      let k : q y ≡ true = subst (λ z. q z ≡ true) e h in rw k (head e)
  filter-member q (y ∷ ys) (tail m) h = elim (Bool-cases (q y)) [
    | inl k ↦ rw k (tail (filter-member q ys m h))
    | inr k ↦ rw k (filter-member q ys m h)
  ]

  pub member-filter : (q : A → Bool) (xs : List A) {x : A} → Memᴰ x (filter q xs) → Memᴰ x xs
  member-filter q [] m = m
  member-filter q (y ∷ ys) {x = x} m = elim (Bool-cases (q y)) [
    | inl k ↦ elim (subst (λ b. Memᴰ x (if b then y ∷ filter q ys else filter q ys)) k m) [
      | head e ↦ head e
      | tail n ↦ tail (member-filter q ys n)
    ]
    | inr k ↦
        tail (
          member-filter q ys (subst (λ b. Memᴰ x (if b then y ∷ filter q ys else filter q ys)) k m))
  ]

  -- What holds of every row after an update, from what held before.
  pub All-update_many-from {κ μ} :
      (P : A → Type κ) (Q : A → Type μ) (p : A → Bool) (f : A → A) (xs : List A)
      → ((x : A) → p x ≡ true → Q (f x))
      → ((x : A) → P x → Q x)
      → All P xs
      → All Q (update_many p f xs)
  unfolding update_many
  All-update_many-from P Q p f [] h k u = tt
  All-update_many-from P Q p f (x ∷ xs) h k (u, us) = (
    elim (Bool-cases (p x)) [ inl e ↦ rw e (h x e) | inr e ↦ rw e (k x u) ],
    All-update_many-from P Q p f xs h k us,
  )

  pub All-map {κ μ} :
      (P : A → Type κ) (Q : A → Type μ) (xs : List A) → ((x : A) → P x → Q x) → All P xs → All Q xs
  All-map P Q [] k u = tt
  All-map P Q (x ∷ xs) k (u, us) = (k x u, All-map P Q xs k us)

  pub All-filter {κ} :
      (P : A → Type κ) (q : A → Bool) (xs : List A) → All P xs → All P (filter q xs)
  All-filter P q [] u = tt
  All-filter P q (x ∷ xs) (u, us) = elim (Bool-cases (q x)) [
    | inl e ↦ rw e (u, All-filter P q xs us)
    | inr e ↦ rw e (All-filter P q xs us)
  ]

  -- What holds of the rows of a kind and of the rows of no such kind holds of all.
  pub filter-All {κ} :
      (P : A → Type κ) (q : A → Bool) (xs : List A)
      → ((x : A) → q x ≡ false → P x)
      → All P (filter q xs)
      → All P xs
  filter-All P q [] h u = tt
  filter-All P q (x ∷ xs) h u = elim (Bool-cases (q x)) [
    | inl e ↦
        let v = subst (λ b. All P (if b then x ∷ filter q xs else filter q xs)) e u in
        (v.0, filter-All P q xs h v.1)
    | inr e ↦ (
      h x e,
      filter-All P q xs h (subst (λ b. All P (if b then x ∷ filter q xs else filter q xs)) e u),
    )
  ]

  abbrev pub updated_row : (A → Bool) → (A → A) → Option A → Option A
  updated_row p f none = none
  updated_row p f (some x) = some (if p x then f x else x)

  -- An update that keeps what a search tests for changes only the row that the search finds.
  pub find-update_many :
      (q p : A → Bool) (f : A → A) (xs : List A)
      → ((x : A) → q (f x) ≡ q x)
      → find q (update_many p f xs) ≡ updated_row p f (find q xs)
  unfolding update_many
  find-update_many q p f [] h = refl
  find-update_many q p f (x ∷ xs) h = ground (arith, h x, find-update_many q p f xs h)

  pub find-holds : (p : A → Bool) (xs : List A) (x : A) → find p xs ≡ some x → p x ≡ true
  find-holds p [] x e = absurd (cc)
  find-holds p (y ∷ ys) x e = ground (arith, find-holds p ys x)

  -- A filter that keeps the row that a search finds does not hide it.
  pub find-filter :
      (p q : A → Bool) (xs : List A) (x : A)
      → find p xs ≡ some x
      → q x ≡ true
      → find p (filter q xs) ≡ some x
  find-filter p q [] x e h = cc
  find-filter p q (y ∷ ys) x e h = elim (Bool-cases (p y)) [
    | inl k ↦
        let found : some y ≡ some x = rw k at e in
        let same_row : y ≡ x = cc in
        let kept : p x ≡ true = rw⁻¹ same_row k in rw (same_row, h, kept) refl
    | inr k ↦ elim (Bool-cases (q y)) [
      | inl u ↦ rw (u, k) (find-filter p q ys x (rw k at e) h)
      | inr u ↦ rw u (find-filter p q ys x (rw k at e) h)
    ]
  ]
