-- ===== src/Rpc/Socket.antt =====
-- The socket under the messages of src/rpc.c.
pub mod Events
pub mod Recv
pub mod Send
