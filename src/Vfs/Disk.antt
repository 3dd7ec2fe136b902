-- ===== src/Vfs/Disk.antt =====
-- aes_vfs/DiskPage.h and DiskPage.cc: one page of the file and its slot on disk.
-- A method takes the open file and returns it; `uint32_t` products wrap at 2 ^ 32.
pub mod Slots
pub mod Transfer
use sqlite3gen.Base.{
  ℕ, ◌*◌, ◌%◌, ◌^◌, Bool, true, false, Option, none, some, ◌==◌, is_some, if◌then◌else◌,
}
use sqlite3gen.Vfs.Memory.{Buffer, page_size, page_size_disk, memset}
use sqlite3gen.Vfs.Platform.{Mbedtls, Posix}
use sqlite3gen.Vfs.Cipher.{PageCipher, encrypt_page, decrypt_page}

pub record DiskPage : Type 0 where
  pub page_number : ℕ
  pub buffer : Buffer
  pub dirty : Bool

-- `pageNumber * PAGE_SIZE_DISK`, a product of a `uint32_t` and an `int`.
unfoldable pub page_offset : ℕ → ℕ
page_offset pgno = pgno * page_size_disk % 2 ^ 32

-- The bytes that `read` leaves in the buffer, by the count that the system call gave.
unfoldable pub received : Mbedtls → PageCipher → DiskPage → ℕ → Buffer → DiskPage
received m c pg r disk_buffer = record pg {
  buffer =
      if r == page_size_disk
      then (decrypt_page m c pg.page_number disk_buffer).1
      else memset pg.buffer 0 0 page_size;
  dirty = false;
}

module _ (o : Posix) where
  unfoldable pub seek : ℕ → o.File → Bool × o.File
  seek pgno f =
      let (r, f') = o.lseek f (page_offset pgno) in
      (elim r [ none ↦ false | some n ↦ n == page_offset pgno ], f')

module _ (m : Mbedtls) (o : Posix) (c : PageCipher) where
  unfoldable pub write : DiskPage → o.File → Bool × o.File
  write pg f =
      let (found, f₁) = seek o pg.page_number f in
      let (r, f₂) = o.write f₁ (encrypt_page m c pg.page_number pg.buffer) page_size_disk in
      if found then (is_some r, f₂) else (false, f₁)

  unfoldable pub read : DiskPage → o.File → Bool × DiskPage × o.File
  read pg f =
      let (found, f₁) = seek o pg.page_number f in
      let (got, f₂) = o.read f₁ page_size_disk in
      if found
      then elim got [
        | none ↦ (false, pg, f₂)
        | some (r, disk_buffer) ↦ (true, received m c pg r disk_buffer, f₂)
      ]
      else (false, pg, f₁)

  -- `write`'s result is dropped, and the page counts as clean after it.
  unfoldable pub flush : DiskPage → o.File → DiskPage × o.File
  flush pg f =
      let (written, f') = write pg f in (record pg { dirty = false }, if pg.dirty then f' else f)

  -- The constructor. `fresh` is what the new object's buffer holds before `read`.
  unfoldable pub new_page : ℕ → Buffer → o.File → DiskPage × o.File
  new_page pgno fresh f =
      let pg : DiskPage = record { page_number = pgno; buffer = fresh; dirty = false } in
      let (result, pg', f') = read pg f in (pg', f')
