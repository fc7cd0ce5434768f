-- ===== src/Base/Results.antt =====
-- Code that throws, as a result: `err` carries the thrown error.
use mathlib.Core.Path.{◌≡◌, refl, subst}
use mathlib.Core.Logic.{◌⊎◌, inl, inr}
use mathlib.Core.Bool.{Bool, true, false}
use mathlib.Core.Option.{Option, none, some}
use kiosk_project.Base.Tests.{if◌then◌else◌}

pub data Result {ℓ κ} (E : Type ℓ) (A : Type κ) : Type (ℓ ⊔ κ) where
  err : E → Result E A
  ok : A → Result E A

infixl 5 ◌>>=◌ ◌>>◌
abbrev pub ◌>>=◌ {ℓ κ μ} :
    {E : Type ℓ} {A : Type κ} {B : Type μ} → Result E A → (A → Result E B) → Result E B
err thrown >>= next = err thrown
ok value >>= next = next value

-- A statement that returns nothing, before the rest.
abbrev pub ◌>>◌ {ℓ μ} : {E : Type ℓ} {B : Type μ} → Result E (Unit {0}) → Result E B → Result E B
statement >> rest = statement >>= λ returned. rest

-- `if (!test) throw e`.
abbrev pub require {ℓ} : {E : Type ℓ} → Bool → E → Result E (Unit {0})
require true e = ok tt
require false e = err e

-- `if (test) throw e`.
abbrev pub refuse_if {ℓ} : {E : Type ℓ} → Bool → E → Result E (Unit {0})
refuse_if true e = err e
refuse_if false e = ok tt

abbrev pub or_throw {ℓ κ} : {E : Type ℓ} {A : Type κ} → Option A → E → Result E A
or_throw none e = err e
or_throw (some a) e = ok a

-- A chain that succeeds had a first call that did, and went on from its value.
pub >>=-eq-ok {ℓ κ μ} :
    {E : Type ℓ} {A : Type κ} {B : Type μ} {b : B} (called : Result E A) (next : A → Result E B)
    → (called >>= next) ≡ ok b
    → (value : A) × (called ≡ ok value) × (next value ≡ ok b)
>>=-eq-ok (err thrown) next e = cc
>>=-eq-ok (ok value) next e = (value, refl, e)

pub require-eq-ok {ℓ} :
    {E : Type ℓ} (b : Bool) (e : E) {u : Unit {0}} → require b e ≡ ok u → b ≡ true
require-eq-ok true e h = refl
require-eq-ok false e h = cc

pub refuse_if-eq-ok {ℓ} :
    {E : Type ℓ} (b : Bool) (e : E) {u : Unit {0}} → refuse_if b e ≡ ok u → b ≡ false
refuse_if-eq-ok true e h = cc
refuse_if-eq-ok false e h = refl

pub Result-cases {ℓ κ} :
    {E : Type ℓ} {A : Type κ} (r : Result E A) → ((a : A) × (r ≡ ok a)) ⊎ ((e : E) × (r ≡ err e))
Result-cases (ok a) = inl (a, refl)
Result-cases (err e) = inr (e, refl)

pub or_throw-eq-ok {ℓ κ} :
    {E : Type ℓ} {A : Type κ} (o : Option A) (e : E) {a : A} → or_throw o e ≡ ok a → o ≡ some a
or_throw-eq-ok none e h = cc
or_throw-eq-ok (some a) e h = cc

pub ok-injective {ℓ κ} :
    {E : Type ℓ} {A : Type κ} {a b : A} → ◌≡◌ {A = Result E A} (ok a) (ok b) → a ≡ b
ok-injective h = cc

-- The same inversion, handed on to a continuation.
pub bind_cases {ℓ κ μ ν} :
    {E : Type ℓ} {A : Type κ} {B : Type μ} {P : Type ν} (m : Result E A) (f : A → Result E B)
    {b : B}
    → (m >>= f) ≡ ok b
    → ((a : A) → m ≡ ok a → f a ≡ ok b → P)
    → P
bind_cases (ok a) f h k = k a refl h
bind_cases (err e) f h k = absurd (cc)

-- A call that returns does so with a value of `P`.
pub data Ensures {ℓ κ μ} {E : Type ℓ} {A : Type κ} (r : Result E A) (P : A → Type μ)
    : Type (ℓ ⊔ κ ⊔ μ) where
  ensures : ((a : A) → r ≡ ok a → P a) → Ensures r P

module _ {ℓ κ μ} {E : Type ℓ} {A : Type κ} {P : A → Type μ} where
  pub ensured : {r : Result E A} {a : A} → Ensures r P → r ≡ ok a → P a
  ensured {a = a} (ensures h) k = h a k

  pub Ensures-ok : {a : A} → P a → Ensures {E = E} (ok a) P
  Ensures-ok p = ensures λ b e. subst P (ok-injective e) p

  pub Ensures-or_throw :
      (o : Option A) (e : E) → ((a : A) → o ≡ some a → P a) → Ensures (or_throw o e) P
  Ensures-or_throw o e h = ensures λ a k. h a (or_throw-eq-ok o e k)

  pub Ensures-require :
      (b : Bool) (e : E) {rest : Result E A}
      → (b ≡ true → Ensures rest P)
      → Ensures (require b e >> rest) P
  Ensures-require true e h = h refl
  Ensures-require false e h = ensures λ a k. absurd (cc)

  pub Ensures-refuse_if :
      (b : Bool) (e : E) {rest : Result E A}
      → (b ≡ false → Ensures rest P)
      → Ensures (refuse_if b e >> rest) P
  Ensures-refuse_if true e h = ensures λ a k. absurd (cc)
  Ensures-refuse_if false e h = h refl

  pub Ensures-if :
      {r r' : Result E A} (b : Bool)
      → (b ≡ true → Ensures r P)
      → (b ≡ false → Ensures r' P)
      → Ensures (if b then r else r') P
  Ensures-if true h k = h refl
  Ensures-if false h k = k refl

  pub Ensures-bind {ν π} :
      {B : Type ν} {called : Result E B} {next : B → Result E A} (Q : B → Type π)
      → Ensures called Q
      → ((b : B) → Q b → Ensures (next b) P)
      → Ensures (called >>= next) P
  Ensures-bind {called = err e} Q h k = ensures λ a j. absurd (cc)
  Ensures-bind {called = ok b} Q (ensures h) k = k b (h b refl)

  pub Ensures-map {ν} :
      {r : Result E A} {Q : A → Type ν} → Ensures r Q → ((a : A) → Q a → P a) → Ensures r P
  Ensures-map (ensures h) k = ensures λ a e. k a (h a e)

  -- A call of whose value nothing is used.
  pub Ensures-then {ν} :
      {B : Type ν} (called : Result E B) {next : B → Result E A}
      → ((b : B) → Ensures (next b) P)
      → Ensures (called >>= next) P
  Ensures-then (err e) k = ensures λ a j. absurd (cc)
  Ensures-then (ok b) k = k b
