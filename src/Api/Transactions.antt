-- ===== src/Api/Transactions.antt =====
-- services/api/src/modules/sessions/transactions.ts: which failures of a transaction are conflicts that
-- a caller may run again. `none` stands for a property that is absent or is no object.
use kiosk_project.Base.{String, str_eq, Bool, false, ◌&&◌, ◌||◌, Option, none, some}

pub record Cause : Type 0 where
  pub original_code : Option String

pub record DriverAdapterError : Type 0 where
  pub cause : Option Cause

pub record ErrorMeta : Type 0 where
  pub driver_adapter_error : Option DriverAdapterError

-- A thrown value: whether it is an `Error`, whether it is the client's known request error, and
-- what the code reads of it.
pub record ThrownError : Type 0 where
  pub is_error : Bool
  pub is_known_request_error : Bool
  pub name : String
  pub message : String
  pub code : Option String
  pub meta : Option ErrorMeta

pub code_of_cause : Option Cause → Option String
code_of_cause none = none
code_of_cause (some cause) = cause.original_code

pub code_of_adapter : Option DriverAdapterError → Option String
unfolding code_of_cause
code_of_adapter none = none
code_of_adapter (some adapter) = code_of_cause adapter.cause

pub get_driver_database_code : Option ErrorMeta → Option String
unfolding code_of_adapter
get_driver_database_code none = none
get_driver_database_code (some meta) = code_of_adapter meta.driver_adapter_error

abbrev pub is_code : String → Option String → Bool
is_code wanted none = false
is_code wanted (some code) = str_eq code wanted

pub is_retryable_code : ThrownError → String → Bool
unfolding get_driver_database_code
is_retryable_code error code =
    str_eq code "P2034"
    || str_eq code "P2010"
      && (is_code "40001" (get_driver_database_code error.meta)
          || is_code "40P01" (get_driver_database_code error.meta))

pub is_retryable_of : ThrownError → Option String → Bool
unfolding is_retryable_code
is_retryable_of error none =
    error.is_error
    && str_eq error.name "DriverAdapterError"
    && str_eq error.message "TransactionWriteConflict"
is_retryable_of error (some code) = is_retryable_code error code

unfoldable pub is_retryable_transaction_error : ThrownError → Bool
unfolding is_retryable_of
is_retryable_transaction_error error = is_retryable_of error error.code

unfoldable pub is_unique_constraint_error : ThrownError → Bool
is_unique_constraint_error error = error.is_known_request_error && is_code "P2002" error.code
