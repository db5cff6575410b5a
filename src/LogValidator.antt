-- ===== src/LogValidator.antt =====
-- services/transaction-log/src/streams/validation/log_file_validator: which records of a log file
-- survive a restart.
pub mod Scan
pub mod Findings
pub mod Accepting
pub mod Scanning
pub mod Looping
pub mod Validator
pub mod Validating
pub mod Trusting
pub mod Opening
pub mod Keeping
pub mod Placing
pub mod Ending
