-- ===== src/Dll.antt =====
-- aes_vfs/dll3.h, dll3.tcc: the intrusive containers.
pub mod Sequence
pub mod Links
pub mod Hash
pub mod HashLru
