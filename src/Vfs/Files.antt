-- ===== src/Vfs/Files.antt =====
-- aes_vfs/aes_vfs_file.cc and aes_vfs.cc: the calls that sqlite3 makes on an open file, and the
-- VFS object, which keeps the list of open files. A `sqlite3_file *` is a number. `open` and `fsync`
-- are parameters; `close` and the lock have no effect on what is modelled. A count of
-- `DiskCache::read` is not negative, so the branch of `xRead` for a negative one is left out.
pub mod Codes
pub mod Laws
pub mod Opened
pub mod Sync
use sqlite3gen.Base.{
  ℕ, ◌-◌, ◌+◌, Bool, true, false, Option, none, some, List, [], ◌∷◌, ◌==◌, if◌then◌else◌,
}
use sqlite3gen.Base.Text.{Text}
use sqlite3gen.Base.Result.{Result, ok, err}
use sqlite3gen.Dll.Sequence.{erase}
use sqlite3gen.Vfs.Memory.{Buffer, memset}
use sqlite3gen.Vfs.Platform.{Mbedtls, Posix}
use sqlite3gen.Vfs.Cipher.{PageCipher, set_key}
use sqlite3gen.Vfs.Index.{PageIndex}
use sqlite3gen.Vfs.Pages.{PageCache, update}
use sqlite3gen.Vfs.Cache.{DiskCache, new_disk_cache, read, write, flush, truncate, close}
use sqlite3gen.Vfs.Files.Codes.{Code, sqlite_ok, sqlite_cantopen, sqlite_ioerr_short_read}

-- `open(name, O_RDWR | O_CREAT, 0644)`, which gives a file or `errno`, and `fsync`.
pub record FileSystem (o : Posix) : Type 0 where
  pub open_file : Text → Result ℕ o.File
  pub fsync : o.File → o.File

module _ (m : Mbedtls) (o : Posix) (ix : PageIndex) where
  -- `files` are the open files, the one opened last first, and `dc` the cache of each.
  pub record Vfs : Type 0 where
    pub files : List ℕ
    pub dc : ℕ → DiskCache m o ix
    pub last_err : ℕ
    pub cipher : PageCipher

  -- The constructor, and the key and the caches that the object starts with.
  unfoldable pub new_vfs : (ℕ → DiskCache m o ix) → PageCipher → Vfs
  new_vfs dc cipher = record { files = []; dc = dc; last_err = 0; cipher = cipher }

  abbrev pub max_cached_pages : ℕ
  max_cached_pages = 5000

  -- A cache under another key.
  abbrev pub rekey : PageCipher → DiskCache m o ix → DiskCache m o ix
  rekey c d = record d { pc = record d.pc { cipher = c } }

  -- `sqlite3_vfs_aes::setKey`. Each open file points to the cipher of the VFS.
  unfoldable pub vfs_set_key : Text → Vfs → Vfs
  vfs_set_key password v =
      let c = set_key m password in record v { dc = λ f. rekey c (v.dc f); cipher = c }

  unfoldable pub register_file : ℕ → Vfs → Vfs
  register_file f v = record v { files = f ∷ v.files }

  unfoldable pub unregister_file : ℕ → Vfs → Vfs
  unregister_file rf v = record v { files = erase rf v.files }

  -- What follows the `open` of `init`.
  unfoldable pub opened : ℕ → Result ℕ o.File → Vfs → Code × Vfs
  unfolding register_file
  opened f (err errno) v = (sqlite_cantopen, record v { last_err = errno })
  opened f (ok fd) v = (
    sqlite_ok,
    register_file f
        (record v { dc = update v.dc f (new_disk_cache m o ix v.cipher fd max_cached_pages) }),
  )

  -- `init`: `none` is a name that is NULL.
  unfoldable pub x_open : FileSystem o → Option Text → (f : ℕ) → Vfs → Code × Vfs
  unfolding opened
  x_open fs none f v = (sqlite_cantopen, v)
  x_open fs (some name) f v = opened f (fs.open_file name) v

  -- `my_xOpen`: with `*pOutFlags`, where `init` writes it.
  unfoldable pub my_x_open :
      FileSystem o → Option Text → (f flags : ℕ) → Vfs → Code × Option ℕ × Vfs
  unfolding x_open
  my_x_open fs z_name f flags v =
      let (code, v') = x_open fs z_name f v in
      (code, elim z_name [ none ↦ none | some name ↦ some flags ], v')

  unfoldable pub x_close : ℕ → Vfs → Code × Vfs
  unfolding unregister_file
  x_close f v =
      (sqlite_ok, unregister_file f (record v { dc = update v.dc f (close m o ix (v.dc f)) }))

  unfoldable pub x_read :
      (fresh : ℕ → Buffer) (f : ℕ) (ptr : Buffer) (amt ofst : ℕ) → Vfs → Code × Buffer × Vfs
  x_read fresh f ptr amt ofst v =
      let (got, buf, dc) = read m o ix fresh ofst ptr amt (v.dc f) in
      let v' = record v { dc = update v.dc f dc } in
      if got == amt
      then (sqlite_ok, buf, v')
      else (sqlite_ioerr_short_read, memset buf got 0 (amt - got), v')

  unfoldable pub x_write :
      (fresh : ℕ → Buffer) (f : ℕ) (ptr : Buffer) (amt ofst : ℕ) → Vfs → Code × Vfs
  x_write fresh f ptr amt ofst v =
      (sqlite_ok, record v { dc = update v.dc f (write m o ix fresh ofst ptr amt (v.dc f)).1 })

  unfoldable pub x_truncate : ℕ → (size : ℕ) → Vfs → Code × Vfs
  x_truncate f size v = (sqlite_ok, record v { dc = update v.dc f (truncate m o ix size (v.dc f)) })

  unfoldable pub sync_cache : FileSystem o → DiskCache m o ix → DiskCache m o ix
  sync_cache fs d =
      let d' = flush m o ix d in record d' { pc = record d'.pc { file = fs.fsync d'.pc.file } }

  unfoldable pub x_sync : FileSystem o → ℕ → Vfs → Code × Vfs
  unfolding sync_cache
  x_sync fs f v = (sqlite_ok, record v { dc = update v.dc f (sync_cache fs (v.dc f)) })

  -- `_sync`: the walk of the list.
  unfoldable pub sync_files : FileSystem o → List ℕ → Vfs → Vfs
  sync_files fs [] v = v
  sync_files fs (f ∷ fs') v = sync_files fs fs' (x_sync fs f v).1

  unfoldable pub vfs_sync : FileSystem o → Vfs → Vfs
  unfolding sync_files
  vfs_sync fs v = sync_files fs v.files v

  unfoldable pub x_file_size : ℕ → Vfs → Code × ℕ
  x_file_size f v = (sqlite_ok, (v.dc f).file_size)
