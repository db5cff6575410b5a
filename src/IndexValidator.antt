-- ===== src/IndexValidator.antt =====
-- services/transaction-log/src/streams/validation/index_file_validator: the index is made to agree
-- with the records that survive in the log.
pub mod Validator
pub mod Entries
pub mod Checking
pub mod Replacing
pub mod Validating
pub mod Keeping
