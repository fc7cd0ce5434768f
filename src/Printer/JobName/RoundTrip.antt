-- ===== src/Printer/JobName/RoundTrip.antt =====
-- A device's listing leads back to the operation, the document and the number of documents.
use kiosk_project.Base.{
  take-append, drop-append, subst, ℕ, ◌<◌, ◌≡◌, refl, ◌∙◌, ap, sym, Bool, true, false, some, List,
  [], ◌∷◌, ◌++◌, codes, arith, ◌==◌, ltb, leb, is_digit, length, take, drop, replicate,
  matches_classes,
}
use kiosk_project.Domain.PageRanges.{number, trim, is_space}
use kiosk_project.Domain.PageRanges.Parse.{AllDigits}
use kiosk_project.Domain.PageRanges.RoundTrip.{All-append, NoSpaces, trim-none}
use kiosk_project.Domain.ObjectKeys.{is_session_id, session_id_classes, to_lower_case}
use kiosk_project.Printer.Submission.{is_operation_id}
use kiosk_project.Printer.JobName.{
  device_job_name, is_place, job_name_classes, read_job_name, is_counted, parse_matching,
  parse_device_job_name,
}
use kiosk_project.Printer.JobName.Padding.{padded}
use kiosk_project.Printer.JobName.Places.{
  matches-append, places, session_id_classes-Weaker, places-NoSpaces, to_lower_case-append,
  length-to_lower_case, lower-digits, digits-NoSpaces,
}

-- What follows the operation in a name.
tail : List ℕ → List ℕ → List ℕ
tail p q = b'#' ∷ (p ++ (codes "of" ++ q))

tail-NoSpaces : (p q : List ℕ) → AllDigits p → AllDigits q → NoSpaces (tail p q)
unfolding tail is_space
tail-NoSpaces p q h k = (
  refl,
  All-append (λ c. is_space c ≡ false) p (codes "of" ++ q) (digits-NoSpaces p h)
      (refl, (refl, digits-NoSpaces q k)),
)

name-NoSpaces :
    (id p q : List ℕ)
    → is_operation_id id ≡ true
    → AllDigits p
    → AllDigits q
    → NoSpaces (id ++ tail p q)
unfolding is_operation_id is_session_id
name-NoSpaces id p q valid h k =
    let (_, _, at_places) =
      places session_id_classes (to_lower_case id) session_id_classes-Weaker valid in
    All-append (λ c. is_space c ≡ false) id (tail p q) (places-NoSpaces id at_places)
      (tail-NoSpaces p q h k)

length-id : (id : List ℕ) → is_operation_id id ≡ true → length id ≡ 36
unfolding is_operation_id is_session_id session_id_classes
length-id id valid =
    let (_, same_length, _) =
      places session_id_classes (to_lower_case id) session_id_classes-Weaker valid in
    sym (length-to_lower_case id) ∙ same_length

lower-tail : (p q : List ℕ) → AllDigits p → AllDigits q → to_lower_case (tail p q) ≡ tail p q
unfolding tail to_lower_case
lower-tail p q h k =
    ap (◌∷◌ b'#')
      (to_lower_case-append p (codes "of" ++ q) ∙ rw (lower-digits p h, lower-digits q k) refl)

abbrev tail_classes : List (ℕ → Bool)
tail_classes =
    (◌==◌ b'#') ∷ (replicate 3 is_digit ++ ((◌==◌ b'o') ∷ (◌==◌ b'f') ∷ replicate 3 is_digit))

tail-matches :
    (a b c x y z : ℕ)
    → AllDigits (a ∷ b ∷ c ∷ [])
    → AllDigits (x ∷ y ∷ z ∷ [])
    → matches_classes tail_classes (tail (a ∷ b ∷ c ∷ []) (x ∷ y ∷ z ∷ [])) ≡ true
unfolding tail
tail-matches a b c x y z (ha, (hb, (hc, _))) (hx, (hy, (hz, _))) = rw (ha, hb, hc, hx, hy, hz) refl

name-matches :
    (id : List ℕ) (a b c x y z : ℕ)
    → is_operation_id id ≡ true
    → AllDigits (a ∷ b ∷ c ∷ [])
    → AllDigits (x ∷ y ∷ z ∷ [])
    → matches_classes job_name_classes
        (to_lower_case (id ++ tail (a ∷ b ∷ c ∷ []) (x ∷ y ∷ z ∷ [])))
      ≡ true
unfolding is_operation_id is_session_id session_id_classes job_name_classes
name-matches id a b c x y z valid h k =
    let (at_places, _, _) =
      places session_id_classes (to_lower_case id) session_id_classes-Weaker valid in
    rw
      (
        to_lower_case-append id (tail (a ∷ b ∷ c ∷ []) (x ∷ y ∷ z ∷ [])),
        lower-tail (a ∷ b ∷ c ∷ []) (x ∷ y ∷ z ∷ []) h k,
      )
      (matches-append (replicate 36 is_place) tail_classes (to_lower_case id) _ at_places
        (tail-matches a b c x y z h k))

parsed :
    (id : List ℕ) (position count a b c x y z : ℕ)
    → is_operation_id id ≡ true
    → position < count
    → AllDigits (a ∷ b ∷ c ∷ [])
    → AllDigits (x ∷ y ∷ z ∷ [])
    → number (a ∷ b ∷ c ∷ []) ≡ position
    → number (x ∷ y ∷ z ∷ []) ≡ count
    → parse_device_job_name (id ++ tail (a ∷ b ∷ c ∷ []) (x ∷ y ∷ z ∷ []))
      ≡ some
          (record { operation_id = to_lower_case id; position = position; document_count = count })
unfolding parse_device_job_name parse_matching read_job_name is_counted tail
parsed id position count a b c x y z valid below h k p q =
    let after = tail (a ∷ b ∷ c ∷ []) (x ∷ y ∷ z ∷ []) in
    let size = length-id id valid in
    let taken : take 36 (id ++ after) ≡ id =
      subst (λ n. take n (id ++ after) ≡ id) size (take-append id after) in
    let dropped : drop 36 (id ++ after) ≡ after =
      subst (λ n. drop n (id ++ after) ≡ after) size (drop-append id after) in
    let ordered : ltb position count ≡ true = ground arith in
    let counted : leb 1 count ≡ true = ground arith in
    let trimmed : trim (id ++ after) ≡ id ++ after =
      trim-none (id ++ after) (name-NoSpaces id (a ∷ b ∷ c ∷ []) (x ∷ y ∷ z ∷ []) valid h k) in
    rw
      (
        trimmed,
        name-matches id a b c x y z valid h k,
        taken,
        dropped,
        valid,
        p,
        q,
        ordered,
        counted,
      )
      refl

-- The name that a document is submitted under leads back to its operation, position and number of
-- documents, the letters of the operation in lower case, where the operation's identifier is valid,
-- the position is below the number of documents, and that number has at most three digits.
pub parse-device_job_name :
    (operation_id : List ℕ) (position document_count : ℕ)
    → is_operation_id operation_id ≡ true
    → position < document_count
    → document_count < 1000
    → parse_device_job_name (device_job_name operation_id position document_count)
      ≡ some (record {
        operation_id = to_lower_case operation_id;
        position = position;
        document_count = document_count;
      })
unfolding device_job_name tail
parse-device_job_name id position count valid below few =
    let (a, b, c, e, p, h) = padded position (omega arith) in
    let (x, y, z, f, q, k) = padded count few in
    rw (e, f) (parsed id position count a b c x y z valid below h k p q)
