-- ===== src/Wire.antt =====
-- src/proto/wire.h: the little-endian writer and the fail-soft reader of the rivt protocol.
pub mod Writer
pub mod Reader
pub mod Stable
pub mod Fields
pub mod RoundTrip
pub mod FailSoft
mod Examples
