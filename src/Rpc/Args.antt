-- ===== src/Rpc/Args.antt =====
-- The arguments of a remote call: `rpc_message_send_args` and `rpc_message_recv_args` of src/rpc.c.
pub mod Types
pub mod Sending
pub mod Receiving
pub mod Loops
pub mod RoundTrip
