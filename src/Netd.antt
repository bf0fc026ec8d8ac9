-- ===== src/Netd.antt =====
-- linux/common/apps/candy-netd/src: the network transaction of the privileged daemon.
pub mod Record
pub mod Interface
pub mod Triple
pub mod Transaction
pub mod Journal
pub mod Reply
pub mod Service
pub mod Durable
pub mod Restarts
pub mod Fencing
pub mod Outcomes
pub mod Replacement
pub mod V2
pub mod Tests
