-- ===== src/Hosts/Config.antt =====
-- src/hoststore.cpp: the OpenSSH configuration, as `importConfig` reads it.
pub mod Arguments
pub mod Quoting
pub mod Fields
pub mod Parse
pub mod Import
pub mod Imported
pub mod Export
pub mod Shell
