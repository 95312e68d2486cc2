-- ===== src/Tlv.antt =====
-- qdevices/tlv.h and qdevices/tlv.c: the options of the wire protocol.
pub mod Types
pub mod Bytes
pub mod Add
pub mod Iter
pub mod Each
pub mod Decode
pub mod RoundTrip
pub mod Walk
pub mod Layout
pub mod NodeInfo
mod Examples
