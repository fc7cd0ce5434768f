-- ===== src/Database/Quotes.antt =====
-- packages/database/src/session-pricing.ts: a session's active quote, retired in the transaction
-- that changes the priced material.
pub mod Invalidation
use kiosk_project.Base.{
  ℕ, ◌+◌, String, str_eq, Bool, true, false, ◌&&◌, Option, none, some, List, [], ◌∷◌, find,
  if◌then◌else◌, ◌==◌, same,
}
use kiosk_project.Base.Int.{ℤ}
use kiosk_project.Database.Tables.{update_many, matching}

pub data QuoteInvalidationReason : Type 0 where
  settings_changed documents_changed superseded session_terminal : QuoteInvalidationReason

-- The status of a quote. The transactions tell `ACTIVE` from the others.
pub data QuoteStatus : Type 0 where
  active consumed invalidated : QuoteStatus
  other_status : String → QuoteStatus

pub record PriceQuote : Type 0 where
  pub id : String
  pub session_id : String
  pub status : QuoteStatus
  pub expires_at : ℤ
  pub invalidated_at : Option ℤ
  pub invalidation_reason : Option QuoteInvalidationReason

pub record PricedSession : Type 0 where
  pub id : String
  pub active_quote_id : Option String
  pub current_settings_revision : Option ℕ

pub record QuoteInvalidatedEvent : Type 0 where
  pub id : String
  pub aggregate_id : String
  pub sequence : ℕ
  pub quote_id : String
  pub reason : QuoteInvalidationReason

pub record PricingStore : Type 0 where
  pub quotes : List PriceQuote
  pub sessions : List PricedSession
  pub events : List QuoteInvalidatedEvent

pub record InvalidateInput : Type 0 where
  pub session_id : String
  pub reason : QuoteInvalidationReason
  pub now : ℤ
  pub starting_sequence : ℕ
  pub new_event_id : String
  pub clear_settings_revision : Bool

pub record SessionPricingInvalidation : Type 0 where
  pub next_sequence : ℕ
  pub invalidated_quote_id : Option String

unfoldable pub is_active_status : QuoteStatus → Bool
is_active_status active = true
is_active_status _ = false

unfoldable pub is_active_of : String → PriceQuote → Bool
unfolding is_active_status
is_active_of session_id q = str_eq q.session_id session_id && is_active_status q.status

-- The `where` of the retirement.
pub is_retired_by : String → String → PriceQuote → Bool
unfolding is_active_of
is_retired_by session_id quote_id q = str_eq q.id quote_id && is_active_of session_id q

pub retire : InvalidateInput → PriceQuote → PriceQuote
retire input q = record q {
  status = invalidated;
  invalidated_at = some input.now;
  invalidation_reason = some input.reason;
}

-- The update of the session's own row.
pub clear_session : InvalidateInput → List PricedSession → List PricedSession
clear_session input =
    update_many (λ s. str_eq s.id input.session_id)
      (λ s. record {
        id = s.id;
        active_quote_id = none;
        current_settings_revision =
            if input.clear_settings_revision then none else s.current_settings_revision;
      })

pub invalidated_event : InvalidateInput → PriceQuote → QuoteInvalidatedEvent
invalidated_event input q = record {
  id = input.new_event_id;
  aggregate_id = input.session_id;
  sequence = input.starting_sequence + 1;
  quote_id = q.id;
  reason = input.reason;
}

-- What follows the two first statements, on the active quote that the first one found.
pub retire_found :
    PricingStore → InvalidateInput → Option PriceQuote → SessionPricingInvalidation × PricingStore
unfolding clear_session is_retired_by retire invalidated_event update_many matching
retire_found s input none = (
  record { next_sequence = input.starting_sequence; invalidated_quote_id = none },
  record { quotes = s.quotes; sessions = clear_session input s.sessions; events = s.events },
)
retire_found s input (some q) =
    let retired : PriceQuote → Bool = is_retired_by input.session_id q.id in
    let quotes = update_many retired (retire input) s.quotes in
    if matching retired s.quotes == 1
    then (
      record { next_sequence = input.starting_sequence + 1; invalidated_quote_id = some q.id },
      record {
        quotes = quotes;
        sessions = clear_session input s.sessions;
        events = invalidated_event input q ∷ s.events;
      },
    )
    else (
      record { next_sequence = input.starting_sequence; invalidated_quote_id = none },
      record { quotes = quotes; sessions = clear_session input s.sessions; events = s.events },
    )

pub invalidate_session_pricing :
    PricingStore → InvalidateInput → SessionPricingInvalidation × PricingStore
unfolding retire_found is_active_of
invalidate_session_pricing s input =
    retire_found s input (find (is_active_of input.session_id) s.quotes)
