-- ===== src/Arb.antt =====
-- The `.arb` binary format (src/binary/).
pub mod Errors
pub mod Bytes
pub mod Tags
pub mod Crc
pub mod Writer
pub mod Cursor
pub mod Codec
pub mod Encode
pub mod Decode
pub mod Encodable
pub mod RoundTrip
pub mod Sound
pub mod Checked
pub mod Total
pub mod Samples
pub mod Tests
