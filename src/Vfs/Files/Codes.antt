-- ===== src/Vfs/Files/Codes.antt =====
-- aes_vfs/aes_vfs_file.cc: the result codes, and the calls that keep no state.
use sqlite3gen.Base.{ℕ}

pub data Code : Type 0 where
  sqlite_ok : Code
  sqlite_error : Code
  sqlite_notfound : Code
  sqlite_cantopen : Code
  sqlite_ioerr_short_read : Code

-- The operations of `xFileControl` that the source names, and any other.
pub data FileControl : Type 0 where
  fcntl_pragma : FileControl
  fcntl_busyhandler : FileControl
  fcntl_mmap_size : FileControl
  fcntl_has_moved : FileControl
  fcntl_commit_phasetwo : FileControl
  fcntl_pdb : FileControl
  fcntl_other : ℕ → FileControl

unfoldable pub x_file_control : FileControl → Code
x_file_control op = elim op [ fcntl_pragma ↦ sqlite_notfound | _ ↦ sqlite_ok ]

unfoldable pub x_lock : Code
x_lock = sqlite_ok

unfoldable pub x_unlock : Code
x_unlock = sqlite_ok

-- The result, and `*pResOut`.
unfoldable pub x_check_reserved_lock : Code × ℕ
x_check_reserved_lock = (sqlite_ok, 0)

unfoldable pub x_sector_size : ℕ
x_sector_size = 0

unfoldable pub x_device_characteristics : ℕ
x_device_characteristics = 0

unfoldable pub x_shm_map : (pg pgsz : ℕ) → Code
x_shm_map pg pgsz = sqlite_error

unfoldable pub x_shm_lock : (offset n flags : ℕ) → Code
x_shm_lock offset n flags = sqlite_error

unfoldable pub x_shm_unmap : (delete_flag : ℕ) → Code
x_shm_unmap delete_flag = sqlite_error

unfoldable pub x_fetch : (ofst amt : ℕ) → Code
x_fetch ofst amt = sqlite_error

unfoldable pub x_unfetch : (ofst : ℕ) → Code
x_unfetch ofst = sqlite_error
