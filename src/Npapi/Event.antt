-- ===== src/Npapi/Event.antt =====
-- `NPEvent`: do_send_NPEvent and do_recv_NPEvent of src/npw-rpc.c, a module for each event struct.
pub mod Any
pub mod GraphicsExpose
pub mod Crossing
pub mod Motion
pub mod Button
pub mod Key
pub mod Union
