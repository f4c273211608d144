-- ===== src/Gina.antt =====
-- The GINA of older Windows systems under GinaSSO/: it stands between Winlogon and the original GINA and
-- fills in the log-in dialogs.
pub mod Config
pub mod Dialogs
pub mod Listener
pub mod Sessions
pub mod Negotiate
mod Tests
