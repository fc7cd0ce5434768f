-- ===== src/Api/Throttle.antt =====
-- services/api/src/modules/sessions/rate-limit.ts: the throttle of kiosk authentication. The
-- failure counter of the HTTP framework, the lookup of a credential and the digest are parameters;
-- a digest is never the empty text. `now` and `later` are the clock's two readings.
pub mod Accepted
pub mod Examples
use kiosk_project.Base.{
  take, ◌++◌, starts_with, codes, ℕ, ◌+◌, String, str_eq, Bool, true, false, not, ◌&&◌, Option,
  none, some, List, [], ◌∷◌, if◌then◌else◌, leb, filter, drop, length, Result, ok, err,
}
use kiosk_project.Base.Maps.{lookup, insert}

abbrev pub failed_authentication_max : ℕ
failed_authentication_max = 20

abbrev pub failed_authentication_window : ℕ
failed_authentication_window = 300000

abbrev pub recently_accepted_ttl_ms : ℕ
recently_accepted_ttl_ms = 600000

abbrev pub recently_accepted_limit : ℕ
recently_accepted_limit = 512

-- From the digest of a credential to the end of its grace.
abbrev pub RecentlyAccepted : Type 0
RecentlyAccepted = List (String × ℕ)

-- `recentlyAccepted.delete`.
pub delete : String → RecentlyAccepted → RecentlyAccepted
delete digest m = filter (λ e. not (str_eq e.0 digest)) m

pub expire : ℕ → String → RecentlyAccepted → Option ℕ → Bool × RecentlyAccepted
unfolding delete
expire now digest m none = (false, m)
expire now digest m (some expires_at) =
    if leb expires_at now then (false, delete digest m) else (true, m)

pub was_recently_accepted : ℕ → Option String → RecentlyAccepted → Bool × RecentlyAccepted
unfolding expire
was_recently_accepted now none m = (false, m)
was_recently_accepted now (some digest) m = expire now digest m (lookup digest m)

-- The loop of `remember`, and the eviction of the oldest key.
pub sweep : ℕ → RecentlyAccepted → RecentlyAccepted
sweep now m = filter (λ e. not (leb e.1 now)) m

pub evict : RecentlyAccepted → RecentlyAccepted
evict m = if leb recently_accepted_limit (length m) then drop 1 m else m

pub remember : ℕ → Option String → RecentlyAccepted → RecentlyAccepted
unfolding sweep evict
remember now none m = m
remember now (some digest) m = insert digest (now + recently_accepted_ttl_ms) (evict (sweep now m))

pub record Allowance : Type 0 where
  pub is_allowed : Bool
  pub is_exceeded : Bool

-- What the lookup throws: an unusable credential has status 401.
pub data AuthenticationError : Type 0 where
  unusable_credential other_refusal rate_limited : AuthenticationError

pub record Throttle (Limiter : Type 0) : Type 0 where
  pub failures : Limiter
  pub recently_accepted : RecentlyAccepted

module _ {Limiter Identity : Type 0} (allowance : Limiter → Allowance)
    (count_failure : Limiter → Limiter) where
  -- What follows the lookup.
  pub settle :
      ℕ
      → Option String
      → Throttle Limiter
      → Result AuthenticationError Identity
      → Result AuthenticationError Identity × Throttle Limiter
  unfolding remember
  settle later presented t (ok identity) = (
    ok identity,
    record {
      failures = t.failures;
      recently_accepted = remember later presented t.recently_accepted;
    },
  )
  settle later presented t (err unusable_credential) = (
    err unusable_credential,
    record { failures = count_failure t.failures; recently_accepted = t.recently_accepted },
  )
  settle later presented t (err e) = (err e, t)

  -- The guard of a credential that has no grace.
  pub guarded :
      ℕ
      → Option String
      → Throttle Limiter
      → Bool
      → Result AuthenticationError Identity
      → Result AuthenticationError Identity × Throttle Limiter
  unfolding settle
  guarded later presented t recent found =
      let refused = not (allowance t.failures).is_allowed && (allowance t.failures).is_exceeded in
      if not recent && refused then (err rate_limited, t) else settle later presented t found

  -- `found` is what `authenticateKiosk` answers for the request.
  pub authenticate :
      ℕ
      → ℕ
      → Option String
      → Throttle Limiter
      → Result AuthenticationError Identity
      → Result AuthenticationError Identity × Throttle Limiter
  unfolding guarded was_recently_accepted
  authenticate now later presented t found =
      let (recent, kept) = was_recently_accepted now presented t.recently_accepted in
      guarded later presented (record { failures = t.failures; recently_accepted = kept }) recent
        found

-- A request's `authorization` header is none when it is absent; `digest` is the hexadecimal SHA-256.
module _ (digest : List ℕ → List ℕ) where
  pub presented_credential_digest : Option (List ℕ) → Option (List ℕ)
  presented_credential_digest none = none
  presented_credential_digest (some authorization) =
      if starts_with authorization (codes "Bearer ") then some (digest authorization) else none

  pub kiosk_rate_limit_key : Option (List ℕ) → List ℕ → List ℕ
  kiosk_rate_limit_key none ip = codes "address:" ++ ip
  kiosk_rate_limit_key (some []) ip = codes "address:" ++ ip
  kiosk_rate_limit_key (some (c ∷ cs)) ip = codes "kiosk:" ++ take 32 (digest (c ∷ cs))
