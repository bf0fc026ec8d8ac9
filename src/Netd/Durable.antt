-- ===== src/Netd/Durable.antt =====
-- Which calls leave the journal of linux/common/apps/candy-netd/src/network.rs in step with the
-- record in memory.
pub mod Rules
pub mod Cleanup
pub mod Parts
pub mod Methods
