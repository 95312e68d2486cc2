-- ===== src/Msg.antt =====
-- qdevices/msg.h and qdevices/msg.c: the messages of the protocol, made of options.
pub mod Types
pub mod Create
pub mod Decode
pub mod Layout
pub mod Options
pub mod Parts
pub mod Created
pub mod NodeListSize
pub mod RoundTrip
pub mod Loop
mod Examples
