-- ===== src/Io.antt =====
-- src/bas/io: byte streams.
pub mod RawStream
pub mod ArrayStream
pub mod LookAhead
