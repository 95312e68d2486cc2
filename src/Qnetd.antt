-- ===== src/Qnetd.antt =====
-- The server, qdevices/qnetd-*.c: its clients, their clusters and the decision algorithms.
pub mod Client
pub mod ClusterList
pub mod AlgoUtils
pub mod Lms
pub mod Algorithm
pub mod Messages
pub mod Ffsplit
