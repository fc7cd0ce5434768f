-- ===== src/Base/Maps.antt =====
-- `Map` and `Set` of the source with text keys, as association lists in insertion order.
use Prim.Native.String.{String}
use mathlib.Core.Path.{◌≡◌, refl}
use mathlib.Core.Option.{Option, none, some}
use mathlib.Core.List.{List, [], ◌∷◌}
use native.Mathlib.Omega.{arith}
use kiosk_project.Base.Tests.{if◌then◌else◌}
use kiosk_project.Base.Texts.{str_eq, eq_iff}

-- `get`.
unfoldable pub lookup {ℓ} : {V : Type ℓ} → String → List (String × V) → Option V
lookup key [] = none
lookup key ((there, value) ∷ rest) = if str_eq there key then some value else lookup key rest

-- `set`: a key that is there keeps its place.
unfoldable pub insert {ℓ} : {V : Type ℓ} → String → V → List (String × V) → List (String × V)
insert key new [] = (key, new) ∷ []
insert key new ((there, value) ∷ rest) =
    let later = insert key new rest in
    if str_eq there key then (key, new) ∷ rest else (there, value) ∷ later

-- What is read after a `set`.
pub lookup-insert {ℓ} :
    {V : Type ℓ} (key read : String) (new : V) (entries : List (String × V))
    → lookup read (insert key new entries)
      ≡ (if str_eq key read then some new else lookup read entries)
unfolding lookup insert
lookup-insert key read new [] = refl
lookup-insert key read new ((there, value) ∷ rest) =
    ground
      (arith, lookup-insert key read new rest, eq_iff there read, eq_iff there key, eq_iff key read)
