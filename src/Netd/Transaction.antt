-- ===== src/Netd/Transaction.antt =====
-- `NetworkTransaction` of linux/common/apps/candy-netd/src/network.rs, method by method.
pub mod Cleanup
pub mod Lifecycle
pub mod Replace
pub mod Policy
pub mod Recover
pub mod Controller
