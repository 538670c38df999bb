-- ===== src/Decoder.antt =====
-- decoder: the lines of a stream.
pub mod LineReader
pub mod Ndjson
