-- ===== src/Netd/Replacement.antt =====
-- What the methods of linux/common/apps/candy-netd/src/network.rs that replace a declaration leave
-- of the old one.
pub mod Rules
pub mod Failures
pub mod Successes
