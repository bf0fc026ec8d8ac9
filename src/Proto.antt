-- ===== src/Proto.antt =====
-- linux/common/crates/candy-netd-proto/src/lib.rs
pub mod Error
pub mod Prefix
pub mod Declaration
pub mod Request
pub mod Codec
pub mod Session
pub mod V2
pub mod Tests
