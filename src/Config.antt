-- ===== src/Config.antt =====
-- The configuration tool, src/npw-config.c.
pub mod Expand
pub mod Viewer
