-- ===== src/Mosh.antt =====
-- src/moshclient.cpp: the client side of the mosh protocol.
pub mod Proto
pub mod Instruction
pub mod Fragment
pub mod Client
pub mod Journal
pub mod Link
pub mod Sender
pub mod Send
pub mod Ack
pub mod Tick
pub mod HostMessage
pub mod Receiver
pub mod Restart
