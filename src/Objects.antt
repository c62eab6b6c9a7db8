-- ===== src/Objects.antt =====
-- Scriptable objects across the two processes: src/npruntime.c and the marshaler of `NPObject` in
-- src/npw-rpc.c. A stub holds an object for the other process, and a proxy stands for it there.
pub mod Host
pub mod Exchange
pub mod Queue
pub mod Count
pub mod Quiet
pub mod Sound
pub mod Receive
pub mod Import
pub mod Export
pub mod System
pub mod Safety
pub mod Home
pub mod Invalid
pub mod Wires
pub mod Variant
