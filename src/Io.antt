-- ===== src/Io.antt =====
-- The I/O that the program calls and does not implement (tokio, the operating system), as
-- interfaces with the laws that their documentation states.
pub mod Error
pub mod Output
pub mod Source
pub mod File
pub mod WriteLoop
