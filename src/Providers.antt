-- ===== src/Providers.antt =====
-- packages/payment-adapters/src/types.ts: the boundary between payment orchestration and a payment
-- provider. Texts that are only compared are native strings; a currency is a list of code units.
use kiosk_project.Base.{ℕ, String, Option, List}
use kiosk_project.Base.Int.{ℤ}

pub record Money : Type 0 where
  pub amount_minor : ℤ
  pub currency : List ℕ
  pub currency_exponent : ℤ

pub data ProviderWebhookType : Type 0 where
  payment_captured payment_declined payment_canceled payment_timed_out : ProviderWebhookType

pub record ProviderWebhookEvent : Type 0 where
  pub provider_event_id : String
  pub provider_intent_id : String
  pub type : ProviderWebhookType
  pub amount : Money
  pub occurred_at : ℤ
  pub failure_code : Option String
  pub payload_digest : String

pub data PaymentProviderErrorCode : Type 0 where
  provider_unavailable webhook_signature_invalid webhook_malformed webhook_stale webhook_too_large :
      PaymentProviderErrorCode
