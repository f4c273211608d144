-- ===== src/CredProv.antt =====
-- The Windows credential provider under windows-credprov/.
pub mod Channel
pub mod Credentials
pub mod Provider
pub mod Serialization
pub mod Helpers
pub mod Factory
pub mod Submission
mod Tests
