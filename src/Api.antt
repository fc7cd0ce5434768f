-- ===== src/Api.antt =====
-- services/api/src: the logic of the control plane.
pub mod Throttle
pub mod Ledger
pub mod Transactions
pub mod Webhook
pub mod PrintAgent
