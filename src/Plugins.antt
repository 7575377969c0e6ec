-- ===== src/Plugins.antt =====
-- plugins/: what a plugin may do.
pub mod Permissions
