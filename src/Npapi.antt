-- ===== src/Npapi.antt =====
-- The marshalers of the NPAPI types: src/npw-rpc.c.
pub mod Fields
pub mod Rect
pub mod Event
pub mod Window
pub mod Print
pub mod Buffers
