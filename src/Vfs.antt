-- ===== src/Vfs.antt =====
-- aes_vfs: the encrypting file layer, from the cipher of a page up to the file methods.
pub mod Memory
pub mod Platform
pub mod Cipher
pub mod Disk
pub mod Index
pub mod Pages
pub mod Cache
pub mod Files
pub mod Locks
pub mod Dbcipher
pub mod System
