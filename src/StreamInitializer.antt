-- ===== src/StreamInitializer.antt =====
-- services/transaction-log/src/streams/stream_initializer: what of a stream survives a restart, and
-- which pair of files goes on.
pub mod Initializer
pub mod Faults
pub mod Walking
pub mod Stages
pub mod Looping
pub mod Planning
pub mod Finishing
pub mod Initializing
