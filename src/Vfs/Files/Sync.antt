-- ===== src/Vfs/Files/Sync.antt =====
-- aes_vfs/aes_vfs.cc, aes_vfs_file.cc: `_sync` brings every open file to the disk.
use sqlite3gen.Base.{ℕ, ◌+◌, ◌≡◌, refl, ◌∙◌, ap, true, false}
use mathlib.Core.Path.{fun_ext}
use sqlite3gen.Dll.Sequence.{has, Nodup, find_first}
use sqlite3gen.Vfs.Memory.{Buffer}
use sqlite3gen.Vfs.Platform.{Mbedtls, IsMbedtls, Posix, IsPosix}
use sqlite3gen.Vfs.Disk.{page_offset}
use sqlite3gen.Vfs.Disk.Slots.{slot}
use sqlite3gen.Vfs.Cipher.{PageCipher}
use sqlite3gen.Vfs.Index.{PageIndex, IsPageIndex}
use sqlite3gen.Vfs.Pages.{new_cache, flush_pages}
use sqlite3gen.Vfs.Pages.Invariant.{Inv, SameView, view}
use sqlite3gen.Vfs.Pages.Flush.{new_cache-flush_pages}
use sqlite3gen.Vfs.Cache.{flush}
use sqlite3gen.Vfs.Files.{Vfs, FileSystem, sync_cache, vfs_sync}
use sqlite3gen.Vfs.Files.Laws.{vfs_sync_lem}

-- `fsync` changes no byte of the file.
pub record IsFileSystem (o : Posix) (law : IsPosix o) (fs : FileSystem o) : Type 0 where
  pub fsync_size : (f : o.File) → law.size (fs.fsync f) ≡ law.size f
  pub fsync_byte : (f : o.File) (i : ℕ) → law.byte (fs.fsync f) i ≡ law.byte f i

module _ (m : Mbedtls) (crypto : IsMbedtls m) (o : Posix) (law : IsPosix o) (ix : PageIndex)
    (ixl : IsPageIndex ix) (fs : FileSystem o) (fsl : IsFileSystem o law fs) where
  slot_fsync :
      (c : PageCipher) (f : o.File) (q : ℕ) → slot m o law c (fs.fsync f) q ≡ slot m o law c f q
  unfolding slot
  slot_fsync c f q =
      let bytes : Path Buffer (λ i. law.byte (fs.fsync f) (page_offset q + i))
          (λ i. law.byte f (page_offset q + i)) =
        fun_ext (λ i. fsl.fsync_byte f (page_offset q + i)) in
      rw (fsl.fsync_size f, bytes) refl

  new_cache_fsync :
      (c : PageCipher) (f : o.File) (max_pages q : ℕ)
      → view m o ix law (new_cache m o ix c (fs.fsync f) max_pages) q
        ≡ view m o ix law (new_cache m o ix c f max_pages) q
  unfolding view new_cache find_first slot
  new_cache_fsync c f max_pages q = slot_fsync c f q

  -- After the sync of the VFS, whose list has no file twice, the file of each object on the list
  -- whose cache keeps its invariant is what fsync makes of the file with the cache flushed; a new
  -- cache on it shows a client, for every page below 1040448, what the cache showed before; and an
  -- object that is not on the list is as it was; where fsync changes no byte, no call on the files
  -- fails and the cipher decrypts what it encrypts.
  pub vfs_sync-SameView :
      (v : Vfs m o ix) (f other n max_pages : ℕ)
      → Nodup v.files
      → has f v.files ≡ true
      → has other v.files ≡ false
      → Inv m o ix law ixl n (v.dc f).pc
      → let w = vfs_sync m o ix fs v in
        ((w.dc f).pc.file ≡ fs.fsync (flush_pages m o ix (v.dc f).pc).file)
        × SameView m o ix law
            (v.dc f).pc
            (new_cache m o ix (v.dc f).pc.cipher (w.dc f).pc.file max_pages)
        × (w.dc other ≡ v.dc other)
  unfolding sync_cache flush
  vfs_sync-SameView v f other n max_pages once on off inv =
      let s = (v.dc f).pc in
      let w = vfs_sync m o ix fs v in
      let synced : w.dc f ≡ sync_cache m o ix fs (v.dc f) =
        vfs_sync_lem m o ix fs v f once ∙ rw on refl in
      let file : (w.dc f).pc.file ≡ fs.fsync (flush_pages m o ix s).file =
        ap (λ d. d.pc.file) synced in
      (
        file,
        (λ q h i b.
            ap (λ g. view m o ix law (new_cache m o ix s.cipher g max_pages) q i) file
            ∙ ap (λ (p : Buffer). p i)
                (new_cache_fsync s.cipher (flush_pages m o ix s).file max_pages q)
            ∙ new_cache-flush_pages m crypto o law ix ixl n s max_pages inv q h i b),
        vfs_sync_lem m o ix fs v other once ∙ rw off refl,
      )
