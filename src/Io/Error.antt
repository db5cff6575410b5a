-- ===== src/Io/Error.antt =====
-- `std::io::Error`, by its kind.
pub data IoError : Type 0 where
  write_zero interrupted not_found unexpected_eof invalid_input other : IoError
