-- ===== src/Api/Throttle/Examples.antt =====
-- The throttle at a concrete table.
use kiosk_project.Base.{ℕ, ◌+◌, ◌≡◌, refl, String, true, false, some, [], ◌∷◌, Result, ok, err, leb}
use kiosk_project.Base.Maps.{lookup}
use kiosk_project.Api.Throttle.{
  Throttle, AuthenticationError, unusable_credential, Allowance, authenticate,
  was_recently_accepted, expire,
}
use kiosk_project.Api.Throttle.Accepted.{authenticate-recent}

abbrev burst : Throttle ℕ
burst = record { failures = 20; recently_accepted = ("kiosk", 900000) ∷ [] }

abbrev exceeded : ℕ → Allowance
exceeded failures = record { is_allowed = false; is_exceeded = leb 20 failures }

abbrev found : Result AuthenticationError String
found = ok "identity"

still_recent : (was_recently_accepted 5000 (some "kiosk") burst.recently_accepted).0 ≡ true
unfolding was_recently_accepted expire lookup
still_recent = refl

authenticate-recent_example :
    let (answer, after) = authenticate exceeded (λ n. n + 1) 5000 5001 (some "kiosk") burst found in
    (answer ≡ found)
    × (found ≡ err unusable_credential → after.failures ≡ 21)
    × (¬ (found ≡ err unusable_credential) → after.failures ≡ 20)
authenticate-recent_example =
    authenticate-recent exceeded (λ n. n + 1) 5000 5001 (some "kiosk") burst found still_recent
