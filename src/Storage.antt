-- ===== src/Storage.antt =====
-- src/td/storage.py: the encryption of local data, the files that hold it, the names of the files,
-- the derivation of keys, and the blocks of the settings.
pub mod Local
pub mod File
pub mod Names
pub mod Settings
pub mod Sealed
