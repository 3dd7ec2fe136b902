-- ===== src/Vfs/Cache.antt =====
-- aes_vfs/DiskCache.h, DiskCache.cc: byte ranges of the file, cut into pieces of pages.
-- Offsets and sizes are not negative. The loop over `pgno` runs `end_page + 1 - start_page` times,
-- which is the `for` as long as `pgno` does not wrap, that is, below page 2 ^ 32.
pub mod Pieces
pub mod Read
pub mod Fill
pub mod Reach
pub mod Pass
pub mod Write
pub mod RoundTrip
use sqlite3gen.Base.{
  ℕ, zero, suc, ◌+◌, ◌-◌, ◌*◌, ◌/◌, ◌%◌, ◌^◌, true, List, [], ◌∷◌, Option, none, some, ltb,
  if◌then◌else◌,
}
use sqlite3gen.Vfs.Memory.{Buffer, page_size, page_size_disk, memcpy}
use sqlite3gen.Vfs.Platform.{Mbedtls, Posix}
use sqlite3gen.Vfs.Cipher.{PageCipher}
use sqlite3gen.Vfs.Index.{PageIndex}
use sqlite3gen.Vfs.Pages.{
  PageCache, update, new_cache, get_page, release_page, flush_pages, truncate_pages, close_pages,
}

pub record PgInfo : Type 0 where
  pub pg : ℕ
  pub pgno : ℕ
  pub offset_in_page : ℕ
  pub offset_in_arg : ℕ
  pub size_in_page : ℕ

-- `size_in_page`: what is left of the range, or of the page.
unfoldable pub share : (pos size : ℕ) → ℕ
share pos size =
    let remaining_in_page = page_size - pos % page_size in
    if ltb remaining_in_page size then remaining_in_page else size

-- The piece of the range that starts at `pos` with `size` bytes left, in the page of `pos`.
abbrev pub piece : (pg pgno pos size offset_in_arg : ℕ) → PgInfo
piece pg pgno pos size offset_in_arg = record {
  pg = pg;
  pgno = pgno;
  offset_in_page = pos % page_size;
  offset_in_arg = offset_in_arg;
  size_in_page = share pos size;
}

module _ (m : Mbedtls) (o : Posix) (ix : PageIndex) where
  pub record DiskCache : Type 0 where
    pub pc : PageCache m o ix
    pub file_size : ℕ

  unfoldable pub new_disk_cache : PageCipher → o.File → ℕ → DiskCache
  new_disk_cache c f max_pages = record {
    pc = new_cache m o ix c f max_pages;
    file_size = elim (o.fstat_size f) [
      | none ↦ 0
      | some st_size ↦ st_size * page_size / page_size_disk
    ];
  }

  unfoldable pub pages_loop :
      (fresh : ℕ → Buffer) (rounds pgno pos size offset_in_arg : ℕ)
      → PageCache m o ix
      → List PgInfo × PageCache m o ix
  pages_loop fresh zero pgno pos size offset_in_arg s = ([], s)
  pages_loop fresh (suc rounds) pgno pos size offset_in_arg s =
      let (pg, s₁) = get_page m o ix fresh pgno s in
      let n = share pos size in
      let (rest, s₂) =
        pages_loop fresh rounds (pgno + 1) (pos + n) (size - n) (offset_in_arg + n) s₁ in
      (piece pg pgno pos size offset_in_arg ∷ rest, s₂)

  unfoldable pub get_pages :
      (fresh : ℕ → Buffer) (pos size : ℕ) → PageCache m o ix → List PgInfo × PageCache m o ix
  get_pages fresh pos size s =
      let end_offset = pos + size - 1 in
      let start_page = pos / page_size in
      let end_page = end_offset / page_size in
      pages_loop fresh (end_page + 1 - start_page) (start_page % 2 ^ 32) pos size 0 s

  unfoldable pub read_each : List PgInfo → Buffer → PageCache m o ix → Buffer × PageCache m o ix
  read_each [] buf s = (buf, s)
  read_each (pi ∷ pis) buf s =
      let buf' =
        memcpy buf pi.offset_in_arg (s.page pi.pg).buffer pi.offset_in_page pi.size_in_page in
      read_each pis buf' (release_page m o ix pi.pg s)

  -- The result is `size`, whatever the file holds.
  unfoldable pub read :
      (fresh : ℕ → Buffer) (pos : ℕ) (buf : Buffer) (size : ℕ) → DiskCache → ℕ × Buffer × DiskCache
  unfolding get_pages pages_loop read_each
  read fresh pos buf size d =
      let (pgs, s) = get_pages fresh pos size d.pc in
      let (buf', s') = read_each pgs buf s in (size, buf', record d { pc = s' })

  -- The copy into one page, which is dirty after it.
  unfoldable pub fill : PgInfo → Buffer → PageCache m o ix → PageCache m o ix
  fill pi buf s =
      let pg = s.page pi.pg in
      record s {
        page = update s.page pi.pg (record pg {
          buffer = memcpy pg.buffer pi.offset_in_page buf pi.offset_in_arg pi.size_in_page;
          dirty = true;
        });
      }

  unfoldable pub write_each : List PgInfo → Buffer → ℕ → PageCache m o ix → ℕ × PageCache m o ix
  unfolding fill
  write_each [] buf highest_page s = (highest_page, s)
  write_each (pi ∷ pis) buf highest_page s =
      write_each pis buf (if ltb highest_page pi.pgno then pi.pgno else highest_page)
        (release_page m o ix pi.pg (fill pi buf s))

  -- `(highest_page+1) * DiskPage::PAGE_SIZE` is a product of 32 bits.
  unfoldable pub write :
      (fresh : ℕ → Buffer) (pos : ℕ) (buf : Buffer) (size : ℕ) → DiskCache → ℕ × DiskCache
  unfolding get_pages pages_loop write_each
  write fresh pos buf size d =
      let (pgs, s) = get_pages fresh pos size d.pc in
      let (highest_page, s') = write_each pgs buf 0 s in
      let highest_offset = (highest_page + 1) * page_size % 2 ^ 32 in
      (
        size,
        record {
          pc = s';
          file_size = if ltb d.file_size highest_offset then highest_offset else d.file_size;
        },
      )

  unfoldable pub flush : DiskCache → DiskCache
  flush d = record d { pc = flush_pages m o ix d.pc }

  unfoldable pub truncate : ℕ → DiskCache → DiskCache
  truncate size d = record { pc = truncate_pages m o ix size d.pc; file_size = size }

  -- The destructor of the page cache, which is that of the disk cache.
  unfoldable pub close : DiskCache → DiskCache
  close d = record d { pc = close_pages m o ix d.pc }
