-- ===== src/Vfs/Dbcipher/Rounds.antt =====
-- aes_vfs/dbcipher.cc: the encryption reads its input to the end, one slot of output for each
-- page, a last short page included.
use sqlite3gen.Base.{
  ℕ, zero, suc, ◌+◌, ◌-◌, ◌*◌, ◌/◌, ◌%◌, ◌^◌, ◌<◌, ◌≡◌, ◌⊎◌, inl, inr, refl, ◌∙◌, ap, Option, some,
  arith, min,
}
use sqlite3gen.Vfs.Memory.{Buffer, page_size, page_size_disk}
use sqlite3gen.Vfs.Platform.{Mbedtls, Posix, IsPosix}
use sqlite3gen.Vfs.Cipher.{PageCipher, encrypt_page}
use sqlite3gen.Vfs.Dbcipher.{encrypt_loop, page_in}

pub number-cases : (n : ℕ) → (n ≡ 0) ⊎ ((k : ℕ) × (n ≡ suc k))
number-cases zero = inl refl
number-cases (suc n) = inr (n, refl)

module _ (m : Mbedtls) (o : Posix) (law : IsPosix o) (c : PageCipher) where
  -- The bytes that a read may still get.
  abbrev pub remaining : o.File → ℕ
  remaining f = law.size f - law.offset f

  abbrev pub pages : ℕ → ℕ
  pages n = (n + (page_size - 1)) / page_size

  -- The loop ends, with the count of pages and the offset in the output behind the last of them.
  pub record Encrypts (pgno : ℕ) (in_fd out_fd : o.File) (r : Option (ℕ × o.File)) : Type 0 where
    pub count : ℕ
    pub out : o.File
    pub returns : r ≡ some (count, out)
    pub counted : count ≡ pgno + pages (remaining in_fd)
    pub moved : law.offset out ≡ law.offset out_fd + pages (remaining in_fd) * page_size_disk

  -- With more fuel than the pages that remain in the input, a short last page counted, the
  -- encryption loop ends; it counts those pages, and the offset of the output is 4128 bytes
  -- further for each, where the count stays below 2 ^ 32 and no call on the two files fails.
  pub encrypt_loop-Encrypts :
      (fuel : ℕ) (page_buffer : Buffer) (pgno : ℕ) (in_fd out_fd : o.File)
      → pages (remaining in_fd) < fuel
      → pgno + pages (remaining in_fd) < 2 ^ 32
      → Encrypts pgno in_fd out_fd (encrypt_loop m o c fuel page_buffer pgno in_fd out_fd)
  unfolding encrypt_loop
  encrypt_loop-Encrypts zero page_buffer pgno in_fd out_fd enough small =
      absurd (omega (arith, enough))
  encrypt_loop-Encrypts (suc fuel) page_buffer pgno in_fd out_fd enough small =
      let (got, read, bytes) = law.read_count in_fd page_size in
      elim (number-cases (min page_size (remaining in_fd))) [
        | inl end ↦
            let done : pages (remaining in_fd) ≡ 0 = omega arith in
            rw (read, end, encrypt_loop)
              record {
                count = pgno;
                out = out_fd;
                returns = refl;
                counted = omega (arith, done);
                moved = omega (arith, done);
              }
        | inr (k, more) ↦
            let buf = page_in m o c (suc k) got page_buffer in
            let page = encrypt_page m c pgno buf in
            let left : remaining (o.read in_fd page_size).1 ≡ remaining in_fd - page_size =
              omega (arith, law.read_size in_fd page_size, law.read_offset in_fd page_size) in
            let next : (pgno + 1) % 2 ^ 32 ≡ pgno + 1 = omega (arith, more) in
            let fewer : pages (remaining in_fd) ≡ pages (remaining in_fd - page_size) + 1 =
              omega (arith, more) in
            let same = ap pages left in
            let rest =
              encrypt_loop-Encrypts fuel buf ((pgno + 1) % 2 ^ 32) (o.read in_fd page_size).1
                (o.write out_fd page page_size_disk).1 (omega (arith, same, fewer, enough))
                (omega (arith, next, same, fewer, small)) in
            rw (read, more, encrypt_loop, law.write_count out_fd page page_size_disk)
              record {
                count = rest.count;
                out = rest.out;
                returns = rest.returns;
                counted = rest.counted ∙ omega (arith, next, same, fewer);
                moved =
                    rest.moved
                    ∙ omega (arith, same, fewer, law.write_offset out_fd page page_size_disk);
              }
      ]
