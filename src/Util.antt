-- ===== src/Util.antt =====
-- src/util.c
pub mod Name
pub mod ObjectPath
pub mod Status
pub mod Host
pub mod Wipe
pub mod Error
