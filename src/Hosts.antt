-- ===== src/Hosts.antt =====
-- src/hoststore.h and src/hoststore.cpp: the saved hosts.
pub mod Host
pub mod Store
pub mod Copy
pub mod Settings
pub mod Config
