-- ===== src/GdmPlugin.antt =====
-- The GDM login extension under gdm-plugin/.
pub mod Extension
pub mod Visible
