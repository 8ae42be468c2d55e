-- ===== src/System.antt =====
-- crates/ssh-rocket-runtime/src/system.rs: routes, packet filter and control groups of the system.
pub mod Nft
pub mod Tasks
pub mod Firewall
pub mod Packets
pub mod Installed
pub mod Verdicts
pub mod Agreement
pub mod Ends
pub mod Bypass
pub mod Apps
pub mod Groups
pub mod Calls
pub mod Setup
pub mod Effects
pub mod Counts
pub mod Restored
pub mod Clean
pub mod DomainSets
mod Examples
mod AppExamples
mod SetupExamples
