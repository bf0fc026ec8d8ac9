-- ===== src/Netd/Journal.antt =====
-- linux/common/apps/candy-netd/src/journal.rs: the bytes of the durable record.
pub mod Fields
pub mod Encode
pub mod Decode
pub mod File
pub mod Restart
pub mod Reads
pub mod Stored
pub mod Parts
pub mod Content
pub mod RoundTrip
pub mod Loss
pub mod Accepted
pub mod Tests
