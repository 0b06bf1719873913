-- ===== src/Mosh/Restart.antt =====
-- src/moshclient.cpp: how a session starts, and goes on from its journal after the app was closed.
pub mod Write
pub mod Read
pub mod Resume
pub mod Entries
pub mod Reading
pub mod Cut
pub mod Snapshot
pub mod Restored
pub mod Nonces
