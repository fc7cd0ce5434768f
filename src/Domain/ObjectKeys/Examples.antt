-- ===== src/Domain/ObjectKeys/Examples.antt =====
-- The object keys of packages/domain/src/retention.ts at a concrete session.
use mathlib.Core.List.Memᴰ.{head}
use kiosk_project.Base.{ℕ, ◌≡◌, refl, List, ◌∷◌, [], codes, ok}
use kiosk_project.Domain.ObjectKeys.{
  session_id_classes, is_session_id, session_object_prefixes, to_lower_case, session_object_roots,
  prefix_under,
}
use kiosk_project.Domain.ObjectKeys.RoundTrip.{sweeps_disjoint}

abbrev session_id : List ℕ
session_id = codes "0F8FAD5B-d9cb-469f-a165-70867728950e"

abbrev quarantine_prefix : List ℕ
quarantine_prefix = codes "quarantine/v1/0f8fad5b-d9cb-469f-a165-70867728950e/"

abbrev prefixes : List (List ℕ)
prefixes =
    quarantine_prefix
    ∷ codes "normalized/v1/0f8fad5b-d9cb-469f-a165-70867728950e/"
    ∷ codes "previews/v1/0f8fad5b-d9cb-469f-a165-70867728950e/"
    ∷ []

found_prefixes : session_object_prefixes session_id ≡ ok prefixes
unfolding session_object_prefixes to_lower_case session_object_roots prefix_under is_session_id
    session_id_classes
found_prefixes = refl

sweeps_disjoint_example : to_lower_case session_id ≡ to_lower_case session_id
sweeps_disjoint_example =
    sweeps_disjoint session_id session_id prefixes prefixes quarantine_prefix quarantine_prefix
      quarantine_prefix found_prefixes found_prefixes (head refl) (head refl) refl refl
