-- ===== src/Vfs/Cache/Reach.antt =====
-- aes_vfs/DiskCache.cc: the pages and the bytes that `write` changes.
use sqlite3gen.Base.{ℕ, ◌+◌, ◌-◌, ◌*◌, ◌/◌, ◌<◌, ◌≡◌, ltb, leb, ◌&&◌, if◌then◌else◌, max}
use sqlite3gen.Vfs.Memory.{Buffer, page_size}
use sqlite3gen.Vfs.Platform.{Mbedtls, Posix, IsPosix}
use sqlite3gen.Vfs.Disk.Slots.{max_disk_pages}
use sqlite3gen.Vfs.Index.{PageIndex}
use sqlite3gen.Vfs.Pages.{PageCache}
use sqlite3gen.Vfs.Pages.Invariant.{view}

-- The last page that the range touches.
abbrev pub last_page : (pos size : ℕ) → ℕ
last_page pos size = (pos + size - 1) / page_size

-- The count of pages written, after a write of the range.
abbrev pub reach : (n pos size : ℕ) → ℕ
reach n pos size = if ltb 0 size then max n (last_page pos size + 1) else n

abbrev pub highest_of : (highest pos size : ℕ) → ℕ
highest_of highest pos size = if ltb 0 size then max highest (last_page pos size) else highest

module _ (m : Mbedtls) (o : Posix) (law : IsPosix o) (ix : PageIndex) where
  -- Byte `i` of page `q` after a write of `size` bytes from `buf + off` at `pos`.
  abbrev pub overwritten : PageCache m o ix → (pos size off : ℕ) → Buffer → ℕ → ℕ → ℕ
  overwritten s pos size off buf q i =
      let j = q * page_size + i in
      if leb pos j && ltb j (pos + size) then buf (j - pos + off) else view m o ix law s q i

  abbrev pub Overwritten :
      PageCache m o ix → PageCache m o ix → (pos size off : ℕ) → Buffer → Type 0
  Overwritten s t pos size off buf =
      (q i : ℕ)
      → q < max_disk_pages
      → i < page_size
      → view m o ix law t q i ≡ overwritten s pos size off buf q i
