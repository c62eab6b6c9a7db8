-- ===== src/Tests.antt =====
-- The theorems at concrete inputs: module by module as in the development.
pub mod Rpc
pub mod Messages
pub mod Map
pub mod Connection
pub mod Npapi
pub mod Glib
pub mod Tables
pub mod Spelling
pub mod Browser
pub mod Identifiers
mod Objects
mod Malloc
mod Config
mod Ids
mod Instances
mod Wrapper
mod Streams
