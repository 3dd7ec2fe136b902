-- ===== src/Vfs/Cache/RoundTrip.antt =====
-- aes_vfs/DiskCache.cc: what `write` put in a range, `read` gets from it.
use sqlite3gen.Base.{ℕ, ◌+◌, ◌-◌, ◌*◌, ◌/◌, ◌%◌, ◌≤◌, ◌<◌, ◌≡◌, ap, arith, max}
use sqlite3gen.Vfs.Memory.{Buffer, Agree, page_size}
use sqlite3gen.Vfs.Platform.{Mbedtls, IsMbedtls, Posix, IsPosix}
use sqlite3gen.Vfs.Disk.Slots.{max_disk_pages}
use sqlite3gen.Vfs.Index.{PageIndex, IsPageIndex}
use sqlite3gen.Vfs.Pages.Invariant.{Inv}
use sqlite3gen.Vfs.Cache.{DiskCache, read, write}
use sqlite3gen.Vfs.Cache.Read.{read-Filled}
use sqlite3gen.Vfs.Cache.Reach.{last_page}
use sqlite3gen.Vfs.Cache.Write.{write-Overwritten}

module _ (m : Mbedtls) (crypto : IsMbedtls m) (o : Posix) (law : IsPosix o) (ix : PageIndex)
    (ixl : IsPageIndex ix) (n : ℕ) (fresh fresh' : ℕ → Buffer) where
  -- A read of a range of at least one byte gives, right after a write of the same range, the bytes
  -- that were written, for a cache that keeps its invariant with n pages and a file size of n
  -- pages, for a range that starts in those n pages or at their end and ends below page 1040448,
  -- on a file whose calls do not fail and with a cipher that decrypts what it encrypts.
  pub read-write :
      (pos size : ℕ) (buf out : Buffer) (d : DiskCache m o ix)
      → 0 < size
      → pos / page_size ≤ n
      → last_page pos size < max_disk_pages
      → d.file_size ≡ n * page_size
      → Inv m o ix law ixl n d.pc
      → Agree size (read m o ix fresh' pos out size (write m o ix fresh pos buf size d).1).1 buf
  read-write pos size buf out d some joined small total inv =
      let w =
        write-Overwritten m crypto o law ix ixl n fresh pos size buf d some joined small total
          inv in
      let (put, overwritten, inv', end) = w in
      let r =
        read-Filled m crypto o law ix ixl (max n (last_page pos size + 1)) fresh' pos size out
          (write m o ix fresh pos buf size d).1 some small inv' in
      let (got, filled, kept, same, total) = r in
      λ i h.
        let cut : (pos + i) / page_size * page_size + (pos + i) % page_size ≡ pos + i =
          omega arith in
        let index : (pos + i) / page_size * page_size + (pos + i) % page_size - pos + 0 ≡ i =
          omega arith in
        let at =
          overwritten ((pos + i) / page_size) ((pos + i) % page_size) (omega arith) (omega arith) in
        let in_range = filled i in ground (arith, in_range, at, cut, ap buf index)
