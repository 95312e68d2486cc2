-- ===== src/Qnetd/Ffsplit.antt =====
-- qdevices/qnetd-algo-ffsplit.c: the fifty-fifty split algorithm.
pub mod Data
pub mod Stable
pub mod Partition
pub mod Select
pub mod Votes
pub mod Do
pub mod Callbacks
pub mod Registered
mod Examples
