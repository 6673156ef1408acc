-- ===== src/Binary.antt =====
-- The binary format of definitions (src/bt/serialisation.cpp).
pub mod Validate
pub mod Bytes
pub mod Save
pub mod Load
mod Trips
pub mod Meaning
pub mod RoundTrip
pub mod Dot
