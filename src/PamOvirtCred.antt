-- ===== src/PamOvirtCred.antt =====
-- The PAM module under pam-ovirt-cred/: the client of the agent's credentials channel and the
-- authentication entry point.
pub mod CredChannel
pub mod Authenticate
