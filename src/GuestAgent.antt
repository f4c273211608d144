-- ===== src/GuestAgent.antt =====
-- The part of the guest agent under ovirt-guest-agent/ that gives credentials out.
pub mod CredServer
pub mod VirtIoChannel
pub mod AgentLogic
