-- ===== src/Wire.antt =====
-- nexus-protocol: bytes on the wire.
pub mod Bytes
pub mod Varint
pub mod Codec
pub mod Errors
pub mod Frame
pub mod Flags
pub mod Messages
mod Tests
