-- ===== src/Client.antt =====
-- What the programs over SCIF have in common: the calls they make, the steps they are made of, and
-- rules for reasoning about them.
pub mod Library
pub mod Step
pub mod Rules
pub mod Connect
pub mod Session
pub mod Crypt
pub mod SetUp
pub mod Safe
pub mod Passes
pub mod Keyed
pub mod Back
pub mod Whole
pub mod Host
pub mod HostLaws
pub mod Unshare
pub mod Checked
pub mod CheckedSteps
pub mod Messages
pub mod SendLaws
pub mod ReceiveLaws
pub mod Gives
pub mod Transfer
pub mod TransferLaws
