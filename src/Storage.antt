-- ===== src/Storage.antt =====
-- services/transaction-log/src/storage: where the files of the streams are, and the calls that the
-- recovery of a stream makes.
pub mod Paths
pub mod Distinct
pub mod Provider
