-- ===== src/Database/Examples.antt =====
-- The transactions of packages/database/src on concrete tables.
use kiosk_project.Base.{
  codes, ◌+◌, ◌≡◌, String, false, Option, none, some, List, [], ◌∷◌, map, arith, filter, length,
}
use kiosk_project.Base.Int.{ℤ, pos}
use kiosk_project.Database.Paper.{PaperTable, read_kiosk_paper_estimate}
use kiosk_project.Database.Paper.Floor.{
  Completion, deduct_all, sheets_reported, less, deduct_all-floor,
}
use kiosk_project.Database.Payments.{
  Payment, PaymentStatus, PaymentStore, ReleaseInput, release_session_payments, is_captured,
}
use kiosk_project.Database.Payments.Release.{release_session_payments-captured}
use kiosk_project.Database.Tables.{matching}
use kiosk_project.Database.Quotes.{
  is_active_of, PricingStore, InvalidateInput, QuoteStatus, settings_changed,
  invalidate_session_pricing,
}
use kiosk_project.Database.Quotes.Invalidation.{active_quotes, invalidate_session_pricing-retires}
use kiosk_project.Database.Cleanup.{UploadedFile, FileStatus, mark_files}
use kiosk_project.Database.Cleanup.Files.{marked, mark_files-marked}

abbrev trays : PaperTable
trays = ("lobby", record { estimated_sheets = 10; updated_at = pos 0 }) ∷ []

abbrev prints : List Completion
prints =
    record { kiosk_id = "lobby"; sheets_produced = pos 4; now = pos 1 }
    ∷ record { kiosk_id = "attic"; sheets_produced = pos 3; now = pos 2 }
    ∷ record { kiosk_id = "lobby"; sheets_produced = pos 9; now = pos 3 }
    ∷ []

deduct_all-floor_example :
    read_kiosk_paper_estimate (deduct_all trays prints) "lobby"
    ≡ less (read_kiosk_paper_estimate trays "lobby") (sheets_reported "lobby" prints)
deduct_all-floor_example = deduct_all-floor trays prints "lobby"

abbrev payment : String → PaymentStatus → Payment
payment id status = record {
  id = id;
  session_id = "s1";
  status = status;
  applied_to_session = false;
  quote_id = "q1";
  provider = "MOCK";
  provider_intent_id = "intent";
  amount_minor = pos 414;
  currency = codes "AMD";
  currency_exponent = pos 2;
  expires_at = pos 900;
  captured_at = none;
  failure_code = none;
  failed_at = none;
  updated_at = pos 0;
}

abbrev ledger : PaymentStore
ledger = record {
  payments = payment "p1" PaymentStatus.captured ∷ payment "p2" PaymentStatus.pending ∷ [];
  attempts =
      record {
        id = "x1";
        payment_id = "p2";
        attempt = 3;
        action = "CREATE";
        status = PaymentStatus.pending;
        provider_reference = none;
        failure_code = none;
        created_at = pos 0;
      }
      ∷ [];
  events = [];
}

abbrev ending : ReleaseInput
ending = record {
  session_id = "s1";
  now = pos 50;
  starting_sequence = 7;
  new_id = λ n. "new";
  next_state = "CANCELED";
  next_version = 5;
}

release_session_payments-captured_example :
    filter is_captured (release_session_payments ledger ending).1.payments
    ≡ filter is_captured ledger.payments
release_session_payments-captured_example = release_session_payments-captured ledger ending

abbrev quoted : PricingStore
quoted = record {
  quotes =
      record {
        id = "q1";
        session_id = "s1";
        status = QuoteStatus.active;
        expires_at = pos 900;
        invalidated_at = none;
        invalidation_reason = none;
      }
      ∷ [];
  sessions =
      record { id = "s1"; active_quote_id = some "q1"; current_settings_revision = some 2 } ∷ [];
  events = [];
}

abbrev change : InvalidateInput
change = record {
  session_id = "s1";
  reason = settings_changed;
  now = pos 60;
  starting_sequence = 8;
  new_event_id = "e1";
  clear_settings_revision = false;
}

invalidate_session_pricing-retires_example :
    let (r, t) = invalidate_session_pricing quoted change in
    (active_quotes "s1" t ≡ 0)
    × (r.next_sequence ≡ 8 + active_quotes "s1" quoted)
    × (length t.events ≡ 0 + active_quotes "s1" quoted)
unfolding matching is_active_of
invalidate_session_pricing-retires_example =
    invalidate_session_pricing-retires quoted change (omega arith)

abbrev file : FileStatus → Option ℤ → UploadedFile
file status due = record {
  id = "f1";
  session_id = "s1";
  status = status;
  processing_generation = 1;
  processing_claim_token = some "worker";
  processing_lease_expires_at = some (pos 900);
  processing_enqueued_at = none;
  delete_requested_at = none;
  cleanup_due_at = due;
  cleanup_error_code = none;
  updated_at = pos 0;
}

abbrev documents : List UploadedFile
documents =
    file FileStatus.uploading none
    ∷ file FileStatus.ready none
    ∷ file FileStatus.validating none
    ∷ file FileStatus.delete_pending (some (pos 700))
    ∷ []

mark_files-marked_example :
    mark_files "s1" (pos 100) (pos 400) documents ≡ map (marked "s1" (pos 100) (pos 400)) documents
mark_files-marked_example = mark_files-marked "s1" (pos 100) (pos 400) documents
