-- ===== src/Proto/Codec.antt =====
-- The wire format of linux/common/crates/candy-netd-proto/src/lib.rs.
pub mod Varint
pub mod Writer
pub mod Reader
pub mod Declaration
pub mod Frame
pub mod Request
pub mod Response
pub mod Tests
