-- ===== src/Domain/ObjectKeys.antt =====
-- packages/domain/src/retention.ts, lines 192 to 228: the storage keys of a session's objects.
-- Keys and identifiers are lists of UTF-16 code units.
pub mod RoundTrip
pub mod Examples
use kiosk_project.Base.{
  ℕ, ◌+◌, Bool, true, false, ◌&&◌, ◌||◌, Option, none, some, List, [], ◌∷◌, ◌++◌, map, codes,
  if◌then◌else◌, ◌==◌, in_range, is_digit, length, drop, replicate, find, Result, ok, err, ◌>>=◌,
  ◌>>◌, require, starts_with, matches_classes,
}

pub data ObjectKeyError : Type 0 where
  retention_session_id_invalid : ObjectKeyError

pub session_object_roots : List (List ℕ)
session_object_roots = codes "quarantine/v1/" ∷ codes "normalized/v1/" ∷ codes "previews/v1/" ∷ []

abbrev pub slash : ℕ
slash = b'/'

abbrev pub is_hex : ℕ → Bool
is_hex c = is_digit c || in_range b'a' b'f' c

abbrev pub is_dash : ℕ → Bool
is_dash c = c == b'-'

-- `[1-8]` and `[89ab]`.
abbrev pub is_version : ℕ → Bool
is_version = in_range b'1' b'8'

abbrev pub is_variant : ℕ → Bool
is_variant c = in_range b'8' b'9' c || in_range b'a' b'b' c

-- The character classes of `SESSION_ID_PATTERN`, one for each place.
unfoldable pub session_id_classes : List (ℕ → Bool)
session_id_classes =
    replicate 8 is_hex
    ++ (is_dash ∷ replicate 4 is_hex)
    ++ (is_dash ∷ is_version ∷ replicate 3 is_hex)
    ++ (is_dash ∷ is_variant ∷ replicate 3 is_hex)
    ++ (is_dash ∷ replicate 12 is_hex)

unfoldable pub is_session_id : List ℕ → Bool
is_session_id = matches_classes session_id_classes

-- `toLowerCase` on the letters that the pattern can meet: no other character lower-cases to one
-- that it accepts.
abbrev pub lower : ℕ → ℕ
lower c = if in_range b'A' b'Z' c then c + 32 else c

unfoldable pub to_lower_case : List ℕ → List ℕ
to_lower_case = map lower

pub prefix_under : List ℕ → List ℕ → List ℕ
prefix_under session_id root = root ++ (to_lower_case session_id ++ slash ∷ [])

pub session_object_prefixes : List ℕ → Result ObjectKeyError (List (List ℕ))
session_object_prefixes session_id = do
  require (is_session_id (to_lower_case session_id)) retention_session_id_invalid
  ok (map (prefix_under session_id) session_object_roots)

-- `split("/", 1)[0]`.
pub before_slash : List ℕ → List ℕ
before_slash [] = []
before_slash (c ∷ cs) = if c == slash then [] else c ∷ before_slash cs

pub session_id_after : List ℕ → Option (List ℕ)
session_id_after rest =
    let session_id = before_slash rest in if is_session_id session_id then some session_id else none

abbrev under_root : List ℕ → Option (List ℕ) → Option (List ℕ)
under_root key none = none
under_root key (some root) = session_id_after (drop (length root) key)

pub session_id_from_object_key : List ℕ → Option (List ℕ)
session_id_from_object_key key = under_root key (find (starts_with key) session_object_roots)
