-- ===== src/Netd/V2.antt =====
-- linux/common/apps/candy-netd/src/v2.rs: the infrastructure service of the second protocol version.
pub mod State
pub mod Service
pub mod Device
pub mod Exchange
pub mod Recovery
pub mod Infra
pub mod Prepare
pub mod Commit
pub mod Forward
pub mod Process
pub mod Rules
pub mod Leads
pub mod Endings
pub mod Fenced
pub mod Tokens
pub mod Handlers
pub mod Live
pub mod Updates
pub mod Served
pub mod Steps
pub mod Settled
pub mod Repair
pub mod Authority
pub mod Administered
pub mod Tests
pub mod Fencing
