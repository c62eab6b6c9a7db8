-- ===== src/Rpc.antt =====
-- The remote procedure calls between the wrapper and the viewer: src/rpc.c.
pub mod Error
pub mod Action
pub mod Socket
pub mod Words
pub mod Message
pub mod Reader
pub mod Carries
pub mod Args
pub mod Map
pub mod Connection
