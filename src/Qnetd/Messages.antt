-- ===== src/Qnetd/Messages.antt =====
-- qdevices/qnetd-client-msg-received.c: what the server does with a message of a client.
pub mod Server
pub mod Simple
pub mod Init
pub mod Reports
pub mod Received
pub mod Guards
pub mod Join
mod Examples
