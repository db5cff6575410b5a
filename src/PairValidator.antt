-- ===== src/PairValidator.antt =====
-- services/transaction-log/src/streams/validation/indexed_log_validator: a log and its index.
pub mod Validator
pub mod Ends
pub mod Agreement
pub mod Validating
pub mod Resuming
pub mod Placing
