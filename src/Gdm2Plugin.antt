-- ===== src/Gdm2Plugin.antt =====
-- The GDM greeter extension under gdm2-plugin/, for an older greeter.
pub mod Extension
pub mod Plugin
pub mod Visible
