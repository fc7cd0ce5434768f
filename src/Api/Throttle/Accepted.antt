-- ===== src/Api/Throttle/Accepted.antt =====
-- The grace of a credential that was accepted, and the size of the table that keeps it.
use kiosk_project.Base.{
  ℕ, ◌+◌, ◌≤◌, ◌<◌, ◌≡◌, refl, String, str_eq, eq_iff, Bool, true, not, ◌&&◌, Option, none, some,
  [], ◌∷◌, arith, leb, filter, length, Result, ok, err, Option-cases, Bool-cases, inl, inr,
}
use kiosk_project.Base.Maps.{lookup, insert, lookup-insert}
use kiosk_project.Api.Throttle.{
  other_refusal, RecentlyAccepted, Throttle, AuthenticationError, unusable_credential, rate_limited,
  Allowance, authenticate, remember, was_recently_accepted, expire, sweep, evict, guarded, settle,
}

length-filter : (p : String × ℕ → Bool) (m : RecentlyAccepted) → length (filter p m) ≤ length m
length-filter p [] = omega arith
length-filter p (e ∷ m) = ground (arith, length-filter p m)

length-insert : (k : String) (v : ℕ) (m : RecentlyAccepted) → length (insert k v m) ≤ length m + 1
unfolding insert
length-insert k v [] = omega arith
length-insert k v ((j, w) ∷ m) = ground (arith, length-insert k v m)

length-evict : (m : RecentlyAccepted) → length m ≤ 512 → length (evict m) ≤ 511
unfolding evict
length-evict [] h = ground arith
length-evict (e ∷ m) h = ground arith

remember_small :
    (now : ℕ) (digest : Option String) (m : RecentlyAccepted)
    → length m ≤ 512
    → length (remember now digest m) ≤ 512
unfolding remember
remember_small now none m h = h
remember_small now (some digest) m h = omega (
  arith,
  length-insert digest (now + 600000) (evict (sweep now m)),
  length-evict (sweep now m) (omega (arith, h, length-filter (λ e. not (leb e.1 now)) m)),
)

kept_small :
    (now : ℕ) (digest : Option String) (m : RecentlyAccepted)
    → length m ≤ 512
    → length (was_recently_accepted now digest m).1 ≤ 512
unfolding was_recently_accepted expire
kept_small now none m h = h
kept_small now (some digest) m h = elim (Option-cases (lookup digest m)) [
  | inl e ↦ rw e h
  | inr (x, e) ↦ rw e (ground (arith, h, length-filter (λ e. not (str_eq e.0 digest)) m))
]

-- A credential that was accepted is recent for the ten minutes after: until then a request with
-- it finds its grace.
remember-recent :
    (now later : ℕ) (digest : String) (m : RecentlyAccepted)
    → now < later + 600000
    → (was_recently_accepted now (some digest) (remember later (some digest) m)).0 ≡ true
unfolding was_recently_accepted remember expire
remember-recent now later digest m h =
    rw (lookup-insert digest digest (later + 600000) (evict (sweep later m)))
      (ground (arith, eq_iff digest digest))

module _ {Limiter Identity : Type 0} (allowance : Limiter → Allowance)
    (count_failure : Limiter → Limiter) where
  settle_bounded :
      (later : ℕ) (presented : Option String) (t : Throttle Limiter)
      (found : Result AuthenticationError Identity)
      → length t.recently_accepted ≤ 512
      → length (settle allowance count_failure later presented t found).1.recently_accepted ≤ 512
  unfolding settle
  settle_bounded later presented t (ok identity) h =
      remember_small later presented t.recently_accepted h
  settle_bounded later presented t (err unusable_credential) h = h
  settle_bounded later presented t (err other_refusal) h = h
  settle_bounded later presented t (err rate_limited) h = h

  settle_answers :
      (later : ℕ) (presented : Option String) (t : Throttle Limiter)
      (found : Result AuthenticationError Identity)
      → let (answer, after) = settle allowance count_failure later presented t found in
        (answer ≡ found)
        × (found ≡ err unusable_credential → after.failures ≡ count_failure t.failures)
        × (¬ (found ≡ err unusable_credential) → after.failures ≡ t.failures)
  unfolding settle
  settle_answers later presented t (ok identity) = (refl, λ e. absurd (cc), λ n. refl)
  settle_answers later presented t (err unusable_credential) =
      (refl, λ e. refl, λ n. absurd (n refl))
  settle_answers later presented t (err other_refusal) = (refl, λ e. absurd (cc), λ n. refl)
  settle_answers later presented t (err rate_limited) = (refl, λ e. absurd (cc), λ n. refl)

  -- Requests keep the table of accepted credentials within its limit of 512.
  pub authenticate-bounded :
      (now later : ℕ) (presented : Option String) (t : Throttle Limiter)
      (found : Result AuthenticationError Identity)
      → length t.recently_accepted ≤ 512
      → length
          (authenticate allowance count_failure now later presented t found).1.recently_accepted
        ≤ 512
  unfolding authenticate guarded settle
  authenticate-bounded now later presented t found h =
      let kept = (was_recently_accepted now presented t.recently_accepted).1 in
      let small : length kept ≤ 512 = kept_small now presented t.recently_accepted h in
      let recent = (was_recently_accepted now presented t.recently_accepted).0 in
      elim (Bool-cases (
        not recent
        && (not (allowance t.failures).is_allowed && (allowance t.failures).is_exceeded))) [
          | inl e ↦ rw e small
          | inr e ↦ rw e (
              settle_bounded later presented
                (record { failures = t.failures; recently_accepted = kept }) found small)
        ]

  -- A credential within its grace always gets its lookup's answer, however many failures have
  -- been counted; a failure is counted exactly for an answer that the credential is unusable.
  pub authenticate-recent :
      (now later : ℕ) (presented : Option String) (t : Throttle Limiter)
      (found : Result AuthenticationError Identity)
      → (was_recently_accepted now presented t.recently_accepted).0 ≡ true
      → let (answer, after) = authenticate allowance count_failure now later presented t found in
        (answer ≡ found)
        × (found ≡ err unusable_credential → after.failures ≡ count_failure t.failures)
        × (¬ (found ≡ err unusable_credential) → after.failures ≡ t.failures)
  unfolding authenticate guarded settle
  authenticate-recent now later presented t found h = rw h (
      settle_answers later presented
        (record {
          failures = t.failures;
          recently_accepted = (was_recently_accepted now presented t.recently_accepted).1;
        })
        found)
