-- ===== src/Vfs/Cache/Write.antt =====
-- aes_vfs/DiskCache.cc: `write` changes the bytes of its range in the file that a client sees.
use sqlite3gen.Base.{
  ℕ, ◌+◌, ◌-◌, ◌*◌, ◌/◌, ◌%◌, ◌^◌, ◌≤◌, ◌<◌, ◌≡◌, refl, ◌∙◌, subst, arith, ltb, if◌then◌else◌, max,
}
use sqlite3gen.Vfs.Memory.{Buffer, page_size}
use sqlite3gen.Vfs.Platform.{Mbedtls, IsMbedtls, Posix, IsPosix}
use sqlite3gen.Vfs.Disk.Slots.{max_disk_pages}
use sqlite3gen.Vfs.Index.{PageIndex, IsPageIndex}
use sqlite3gen.Vfs.Pages.Invariant.{Inv}
use sqlite3gen.Vfs.Cache.{DiskCache, get_pages, write_each, write}
use sqlite3gen.Vfs.Cache.Pieces.{pages_loop-Covers}
use sqlite3gen.Vfs.Cache.Reach.{last_page, reach, Overwritten}
use sqlite3gen.Vfs.Cache.Pass.{write_each-Wrote}

-- Below page `max_disk_pages` the end of the highest page fits 32 bits.
file_end :
    (size n last highest : ℕ)
    → size ≡ n * page_size
    → highest ≡ last
    → last < max_disk_pages
    → n ≤ max_disk_pages
    → (if ltb size ((highest + 1) * page_size % 2 ^ 32)
        then (highest + 1) * page_size % 2 ^ 32
        else size)
      ≡ max n (last + 1) * page_size
file_end size n last highest total top small limit =
    let fits : (highest + 1) * page_size % 2 ^ 32 ≡ (last + 1) * page_size = omega arith in
    ground (arith, fits)

module _ (m : Mbedtls) (crypto : IsMbedtls m) (o : Posix) (law : IsPosix o) (ix : PageIndex)
    (ixl : IsPageIndex ix) where
  module _ (n : ℕ) (fresh : ℕ → Buffer) where
    -- A write of at least one byte, which starts in the n pages of a cache that keeps its
    -- invariant and whose file size is n pages, or at their end, and ends below page 1040448,
    -- returns the size, where no call on the file fails and the cipher decrypts what it encrypts;
    -- a client then sees the bytes of the range replaced by those of the buffer and every other
    -- byte below page 1040448 as it was; the invariant holds for the count of pages that the range
    -- reaches, and the file size is that count times 4096.
    pub write-Overwritten :
        (pos size : ℕ) (buf : Buffer) (d : DiskCache m o ix)
        → 0 < size
        → pos / page_size ≤ n
        → last_page pos size < max_disk_pages
        → d.file_size ≡ n * page_size
        → Inv m o ix law ixl n d.pc
        → let (put, d') = write m o ix fresh pos buf size d in
          (put ≡ size)
          × Overwritten m o law ix d.pc d'.pc pos size 0 buf
          × Inv m o ix law ixl (max n (last_page pos size + 1)) d'.pc
          × (d'.file_size ≡ max n (last_page pos size + 1) * page_size)
    unfolding write get_pages
    write-Overwritten pos size buf d some joined small total inv =
        let start = pos / page_size in
        let (covers, keeps) =
          pages_loop-Covers m crypto o law ix ixl n fresh ((pos + size - 1) / page_size + 1 - start)
            (start % 2 ^ 32) pos size 0 d.pc (λ e. absurd (omega arith)) (λ h. omega arith)
            (λ h. omega arith) (λ h. small) inv in
        let r = (get_pages m o ix fresh pos size d.pc) in
        let w =
          write_each-Wrote m crypto o law ix ixl n pos size 0 0 buf r.0 r.1 (λ _. joined)
            (λ _. small) covers keeps.inv in
        let all : reach n pos size ≡ max n (last_page pos size + 1) = ground arith in
        let top : (write_each m o ix r.0 buf 0 r.1).0 ≡ last_page pos size = w.top ∙ ground arith in
        (
          refl,
          (λ q i hq hi. w.view q i hq hi ∙ ground (arith, keeps.view q hq i hi)),
          subst (λ (k : ℕ). Inv m o ix law ixl k (write_each m o ix r.0 buf 0 r.1).1) all w.inv,
          file_end d.file_size n (last_page pos size) _ total top small inv.limit,
        )
