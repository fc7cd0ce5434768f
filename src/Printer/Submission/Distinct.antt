-- ===== src/Printer/Submission/Distinct.antt =====
-- What a submission that passes the checks holds: one artifact for each document.
use mathlib.Core.List.{Memᴰ}
use mathlib.Core.List.Memᴰ.{head, tail}
use kiosk_project.Base.{
  is_digit, zero, ◌≤◌, ℕ, matches_classes, replicate, codes_eq-true, Ensures-refuse_if, suc, ◌≡◌,
  ◌⊎◌, refl, sym, ap, ◌∙◌, String, str_eq, str_eq_refl, eq_iff, Bool, true, false, not, some, List,
  [], ◌∷◌, All, length, foldl, arith, Bool-cases, Option-cases, inl, inr, ok, Ensures, Ensures-ok,
  Ensures-require, Ensures-map, ensured, and_true,
}
use kiosk_project.Base.Int.{ℤ, pos, ◌≤ℤ◌, eqb_ℤ-eq, not-ltb_ℤ}
use kiosk_project.Base.Maps.{lookup, insert, lookup-insert}
use kiosk_project.Printer.Submission.{
  is_operation_id, is_malformed, manifest_invalid, operation_id_invalid, artifact_unavailable,
  ManifestDocument, Artifact, PrintSubmission, is_lower_hex, is_sha256, expected_by_document,
  agrees, is_expected, assert_artifacts, assert_submittable,
}
use kiosk_project.Printer.Submission.Repeats.{is_in, NoRepeat, covers_each}

-- The document that the table has under a text.
found_document :
    (m : List (String × ManifestDocument)) (ds : List ManifestDocument) (key : String)
    (d : ManifestDocument)
    → lookup key (foldl (λ m d. insert d.document_id d m) m ds) ≡ some d
    → (lookup key m ≡ some d) ⊎ (Memᴰ d ds × (d.document_id ≡ key))
found_document m [] key d e = inl e
found_document m (x ∷ ds) key d e = elim (found_document (insert x.document_id x m) ds key d e) [
  | inr (k, same_id) ↦ inr (tail k, same_id)
  | inl k ↦ elim (Bool-cases (str_eq x.document_id key)) [
    | inl h ↦
        let found : some x ≡ some d = rw h at (sym (lookup-insert x.document_id key x m) ∙ k) in
        let same_row : d ≡ x = cc in
        inr (head same_row, rw same_row ((eq_iff x.document_id key).0 h))
    | inr h ↦ inl (rw h at (sym (lookup-insert x.document_id key x m) ∙ k))
  ]
]

-- What a document and its artifact have in common, and what the artifact's own fields are.
pub record IsArtifactOf (is_absolute : String → Bool) (d : ManifestDocument) (a : Artifact)
    : Type 0 where
  pub same_document : d.document_id ≡ a.document_id
  pub same_position : d.position ≡ a.position
  pub same_digest : d.sha256 ≡ a.sha256
  pub same_size : d.size_bytes ≡ a.size_bytes
  pub absolute_path : is_absolute a.path ≡ true
  pub some_bytes : pos 1 ≤ℤ a.size_bytes
  pub position_from : pos 0 ≤ℤ a.position
  pub position_to : a.position ≤ℤ pos 999
  pub digest_length : length a.sha256 ≡ 64
  pub digest_lower_hex : All (λ c. ((48 ≤ c) × (c ≤ 57)) ⊎ ((97 ≤ c) × (c ≤ 102))) a.sha256

-- An artifact is that of a document of the manifest.
abbrev pub IsOf : (String → Bool) → List ManifestDocument → Artifact → Type 0
IsOf is_absolute documents artifact =
    (d : ManifestDocument) × Memᴰ d documents × IsArtifactOf is_absolute d artifact

hex_digits :
    (n : ℕ) (text : List ℕ)
    → matches_classes (replicate n is_lower_hex) text ≡ true
    → (length text ≡ n) × All (λ c. ((48 ≤ c) × (c ≤ 57)) ⊎ ((97 ≤ c) × (c ≤ 102))) text
hex_digits zero [] h = (refl, tt)
hex_digits zero (c ∷ cs) h = cc
hex_digits (suc n) [] h = cc
hex_digits (suc n) (c ∷ cs) h =
    let (here, there) = and_true (is_lower_hex c) _ h in
    let (same_length, digits) = hex_digits n cs there in
    (ap suc same_length, (hex_digit c here, digits))
  where
    hex_digit : (c : ℕ) → is_lower_hex c ≡ true → ((48 ≤ c) × (c ≤ 57)) ⊎ ((97 ≤ c) × (c ≤ 102))
    hex_digit c h = elim (Bool-cases (is_digit c)) [
      | inl e ↦ inl (ground arith, ground arith)
      | inr e ↦ inr (ground arith, ground arith)
    ]

agrees-IsArtifactOf :
    (is_absolute : String → Bool) (d : ManifestDocument) (a : Artifact)
    → d.document_id ≡ a.document_id
    → agrees is_absolute d a ≡ true
    → IsArtifactOf is_absolute d a
unfolding agrees is_sha256
agrees-IsArtifactOf is_absolute d a e h_8 =
    let (h_7, high) = and_true _ _ h_8 in
    let (h_6, low) = and_true _ _ h_7 in
    let (h_5, _) = and_true _ _ h_6 in
    let (h_4, hex) = and_true _ _ h_5 in
    let (h_3, size) = and_true _ _ h_4 in
    let (h_2, path) = and_true _ _ h_3 in
    let (h_1, bytes) = and_true _ _ h_2 in
    let (place, digest) = and_true _ _ h_1 in
    let (digits, hexes) = hex_digits 64 a.sha256 hex in
    record {
      same_document = e;
      same_position = eqb_ℤ-eq d.position a.position place;
      same_digest = codes_eq-true d.sha256 a.sha256 digest;
      same_size = eqb_ℤ-eq d.size_bytes a.size_bytes bytes;
      absolute_path = path;
      some_bytes = not-ltb_ℤ a.size_bytes (pos 1) size;
      position_from = not-ltb_ℤ a.position (pos 0) low;
      position_to = not-ltb_ℤ (pos 999) a.position high;
      digest_length = digits;
      digest_lower_hex = hexes;
    }

expected-IsOf :
    (is_absolute : String → Bool) (documents : List ManifestDocument) (a : Artifact)
    → is_expected is_absolute (lookup a.document_id (expected_by_document documents)) a ≡ true
    → IsOf is_absolute documents a
unfolding is_expected expected_by_document lookup
expected-IsOf is_absolute documents a h =
    elim (Option-cases (lookup a.document_id (expected_by_document documents))) [
      | inl e ↦ let no : false ≡ true = rw e at h in absurd (cc)
      | inr (d, e) ↦ elim (found_document [] documents a.document_id d e) [
        | inl k ↦ absurd (cc)
        | inr (k, same_id) ↦ (d, k, agrees-IsArtifactOf is_absolute d a same_id (rw e at h))
      ]
    ]

abbrev ids : List Artifact → List String
ids [] = []
ids (a ∷ rest) = a.document_id ∷ ids rest

-- None of the texts is among those seen.
abbrev Unseen : List String → List String → Type 0
Unseen seen xs = All (λ x. is_in x seen ≡ false) xs

not_head :
    (x : String) (seen xs : List String)
    → Unseen (x ∷ seen) xs
    → (is_in x xs ≡ false) × Unseen seen xs
not_head x seen [] h = (refl, tt)
not_head x seen (y ∷ ys) (h, hs) =
    let (k, ks) = not_head x seen ys hs in
    (ground (arith, h, k, eq_iff x y, eq_iff y x), (ground (arith, h), ks))

not-true : (b : Bool) → not b ≡ true → b ≡ false
not-true true h = cc
not-true false h = refl

asserted :
    (is_absolute : String → Bool) (documents : List ManifestDocument) (seen : List String)
    (positions : List ℤ) (artifacts : List Artifact)
    → Ensures
        (assert_artifacts is_absolute (expected_by_document documents) seen positions artifacts)
        (λ u.
          All (IsOf is_absolute documents) artifacts
          × NoRepeat (ids artifacts)
          × Unseen seen (ids artifacts))
unfolding assert_artifacts
asserted is_absolute documents seen positions [] = Ensures-ok (tt, tt, tt)
asserted is_absolute documents seen positions (a ∷ rest) =
    Ensures-require _ artifact_unavailable λ h.
      Ensures-map
        (asserted is_absolute documents (a.document_id ∷ seen) (a.position ∷ positions) rest)
        λ u (agreed, once, unseen).
          let (fresh, unseen_before) = not_head a.document_id seen (ids rest) unseen in
          let tested = (and_true _ _ h).0 in
          (
            (expected-IsOf is_absolute documents a (and_true _ _ tested).0, agreed),
            (fresh, once),
            (not-true _ (and_true _ _ tested).1, unseen_before),
          )

document_ids : List ManifestDocument → List String
document_ids [] = []
document_ids (d ∷ rest) = d.document_id ∷ document_ids rest

length-ids : (artifacts : List Artifact) → length (ids artifacts) ≡ length artifacts
length-ids [] = refl
length-ids (a ∷ rest) = ap suc (length-ids rest)

length-document_ids :
    (documents : List ManifestDocument) → length (document_ids documents) ≡ length documents
unfolding document_ids
length-document_ids [] = refl
length-document_ids (d ∷ rest) = ap suc (length-document_ids rest)

is_in-document_ids :
    (documents : List ManifestDocument) (d : ManifestDocument)
    → Memᴰ d documents
    → is_in d.document_id (document_ids documents) ≡ true
unfolding document_ids
is_in-document_ids [] d m = elim m [ ]
is_in-document_ids (x ∷ rest) d (head e) =
    rw (ap (λ y. y.document_id) e, str_eq_refl x.document_id) refl
is_in-document_ids (x ∷ rest) d (tail m) = ground (arith, is_in-document_ids rest d m)

All-known :
    (is_absolute : String → Bool) (documents : List ManifestDocument) (artifacts : List Artifact)
    → All (IsOf is_absolute documents) artifacts
    → All (λ x. is_in x (document_ids documents) ≡ true) (ids artifacts)
All-known is_absolute documents [] h = tt
All-known is_absolute documents (a ∷ rest) ((d, m, of), hs) = (
  rw⁻¹ of.same_document (is_in-document_ids documents d m),
  All-known is_absolute documents rest hs,
)

as_many :
    (submission : PrintSubmission)
    → is_malformed submission ≡ false
    → length submission.documents ≡ length submission.artifacts
unfolding is_malformed
as_many submission h = ground (arith, h)

-- The artifacts and the documents stand for one another.
abbrev pub Paired : (String → Bool) → PrintSubmission → Type 0
Paired is_absolute submission =
    All (IsOf is_absolute submission.documents) submission.artifacts
    × NoRepeat (ids submission.artifacts)
    × ((d : ManifestDocument)
        → Memᴰ d submission.documents
        → is_in d.document_id (ids submission.artifacts) ≡ true)

paired :
    (is_absolute : String → Bool) (submission : PrintSubmission)
    → is_malformed submission ≡ false
    → Ensures
        (assert_artifacts is_absolute
          (expected_by_document submission.documents)
          []
          []
          submission.artifacts)
        (λ u. Paired is_absolute submission)
paired is_absolute submission h =
    let documents = submission.documents in
    let artifacts = submission.artifacts in
    Ensures-map (asserted is_absolute documents [] [] artifacts) λ u (agreed, once, _).
      let same_length =
        length-ids artifacts ∙ sym (as_many submission h) ∙ sym (length-document_ids documents) in
      (
        agreed,
        once,
        λ d m.
            covers_each (ids artifacts) (document_ids documents) d.document_id once
              (All-known is_absolute documents artifacts agreed) same_length
              (is_in-document_ids documents d m),
      )

checked :
    (is_absolute : String → Bool) (submission : PrintSubmission)
    → Ensures (assert_submittable is_absolute submission) (λ u. Paired is_absolute submission)
unfolding assert_submittable
checked is_absolute submission =
    Ensures-require (is_operation_id submission.operation_id) operation_id_invalid λ _.
      Ensures-refuse_if (is_malformed submission) manifest_invalid
        λ h. Ensures-require _ manifest_invalid λ _. paired is_absolute submission h

-- A submission that passes the checks pairs the manifest's documents with the artifacts: every
-- artifact is that of a document of the manifest, has its position, digest and size, an absolute
-- path, at least a byte, a position from 0 to 999 and a digest of 64 lower-case hexadecimal digits;
-- no document has two artifacts, and none has none.
pub assert_submittable-Paired :
    (is_absolute : String → Bool) (submission : PrintSubmission)
    → assert_submittable is_absolute submission ≡ ok tt
    → Paired is_absolute submission
assert_submittable-Paired is_absolute submission e = ensured (checked is_absolute submission) e
