-- ===== src/Vfs/Disk/Transfer.antt =====
-- aes_vfs/DiskPage.cc: what `read`, `write` and `flush` do to the slots of the file.
use sqlite3gen.Base.{
  ℕ, ◌+◌, ◌-◌, ◌*◌, ◌≤◌, ◌<◌, ◌≡◌, ◌≢◌, inl, inr, refl, ◌∙◌, ap, Bool, true, false, ◌&&◌, some, min,
  max, arith, leb, ltb, le→leb, lt→ltb, lt→not_leb, ◌==◌, if◌then◌else◌, Bool-cases,
}
use sqlite3gen.Vfs.Memory.{Buffer, Agree, page_size, page_size_disk, memset}
use sqlite3gen.Vfs.Platform.{Mbedtls, IsMbedtls, Posix, IsPosix}
use sqlite3gen.Vfs.Cipher.{PageCipher, encrypt_page, decrypt_page}
use sqlite3gen.Vfs.Cipher.RoundTrip.{decrypt_page-encrypt_page}
use sqlite3gen.Vfs.Disk.{DiskPage, page_offset, received, seek, read, write}
use sqlite3gen.Vfs.Disk.Slots.{max_disk_pages, page_offset_apart, page_offset_lem, IsStored, slot}

module _ (o : Posix) (law : IsPosix o) where
  -- Two states of the file with the same contents.
  pub record Same (f g : o.File) : Type 0 where
    pub size : law.size g ≡ law.size f
    pub byte : (i : ℕ) → law.byte g i ≡ law.byte f i

  seek_found : (p : ℕ) (f : o.File) → (seek o p f).0 ≡ true
  unfolding seek
  seek_found p f = rw (law.lseek_moves f (page_offset p)) (ground arith)

  seek_offset : (p : ℕ) (f : o.File) → law.offset (seek o p f).1 ≡ page_offset p
  unfolding seek
  seek_offset p f = law.lseek_offset f (page_offset p)

  seek-Same : (p : ℕ) (f : o.File) → Same f (seek o p f).1
  unfolding seek
  seek-Same p f = record {
    size = law.lseek_size f (page_offset p);
    byte = law.lseek_byte f (page_offset p);
  }

module _ (m : Mbedtls) (o : Posix) (law : IsPosix o) (c : PageCipher) where
  -- `read` with the outcome of its two system calls written out.
  read_received :
      (pg : DiskPage) (f : o.File) (n : ℕ) (b : Buffer)
      → (o.read (seek o pg.page_number f).1 page_size_disk).0 ≡ some (n, b)
      → read m o c pg f
        ≡ (true, received m c pg n b, (o.read (seek o pg.page_number f).1 page_size_disk).1)
  unfolding read
  read_received pg f n b e = rw (seek_found o law pg.page_number f, read) (rw e)

  -- The outcome of reading the slot of `pg` into its buffer.
  pub record Reads (pg : DiskPage) (f : o.File) (r : Bool × DiskPage × o.File) : Type 0 where
    pub result : r.0 ≡ true
    pub number : r.1.page_number ≡ pg.page_number
    pub clean : r.1.dirty ≡ false
    pub buffer : Agree page_size r.1.buffer (slot m o law c f pg.page_number)
    pub file : Same o law f r.2

  -- The outcome of writing the encrypted buffer of `pg` to its slot.
  pub record Writes (pg : DiskPage) (f : o.File) (r : Bool × o.File) : Type 0 where
    pub result : r.0 ≡ true
    pub size : law.size r.1 ≡ max (law.size f) (page_offset pg.page_number + page_size_disk)
    pub byte :
        (i : ℕ)
        → law.byte r.1 i ≡ (
            if leb (page_offset pg.page_number) i
              && ltb i (page_offset pg.page_number + page_size_disk)
            then encrypt_page m c pg.page_number pg.buffer (i - page_offset pg.page_number)
            else law.byte f i)

  write_sent :
      (pg : DiskPage) (f : o.File)
      → write m o c pg f ≡ (
        true,
        (o.write
            (seek o pg.page_number f).1
            (encrypt_page m c pg.page_number pg.buffer)
            page_size_disk).1,
      )
  unfolding write
  write_sent pg f = rw (seek_found o law pg.page_number f, write) (rw law.write_count)

  pub write-Writes : (pg : DiskPage) (f : o.File) → Writes pg f (write m o c pg f)
  write-Writes pg f = rw (write_sent pg f) record {
    result = refl;
    size = rw (law.write_size, seek_offset o law pg.page_number f, moved.size) refl;
    byte = λ i. rw (law.write_byte, seek_offset o law pg.page_number f, moved.byte i) refl;
  }
    where
      moved : Same o law f (seek o pg.page_number f).1
      moved = seek-Same o law pg.page_number f

module _ (m : Mbedtls) (crypto : IsMbedtls m) (o : Posix) (law : IsPosix o) (c : PageCipher) where
  received_buffer :
      (pg : DiskPage) (f : o.File) (b : Buffer) (n : ℕ)
      → n ≡ min page_size_disk (law.size f - page_offset pg.page_number)
      → ((i : ℕ) → i < n → b i ≡ law.byte f (page_offset pg.page_number + i))
      → Agree page_size (received m c pg n b).buffer (slot m o law c f pg.page_number)
  unfolding received slot memset decrypt_page
  received_buffer pg f b n count bytes i h = elim (Bool-cases (n == page_size_disk)) [
    | inl e ↦ rw e (
        rw (le→leb end size (stored e))
          (crypto.decrypt_local c.file_key _ page_size b _ (λ j hj. bytes j (whole e hj)) i h))
    | inr e ↦ ground arith
  ]
    where
      end : ℕ
      end = page_offset pg.page_number + page_size_disk

      size : ℕ
      size = law.size f

      stored : (n == page_size_disk) ≡ true → end ≤ size
      stored e = ground arith

      whole : (n == page_size_disk) ≡ true → {j : ℕ} → j < page_size → j < n
      whole e hj = ground arith

  pub read-Reads : (pg : DiskPage) (f : o.File) → Reads m o law c pg f (read m o c pg f)
  unfolding received
  read-Reads pg f = rw (read_received m o law c pg f _ _ e) record {
    result = refl;
    number = refl;
    clean = refl;
    buffer =
        received_buffer pg f b _ (omega (arith, moved.size, seek_offset o law pg.page_number f))
          λ i h.
            (law.read_count f₁ page_size_disk).2 i h
            ∙ moved.byte _
            ∙ ap (λ (k : ℕ). law.byte f (k + i)) (seek_offset o law pg.page_number f);
    file = record {
      size = law.read_size f₁ page_size_disk ∙ moved.size;
      byte = λ i. law.read_byte f₁ page_size_disk i ∙ moved.byte i;
    };
  }
    where
      f₁ : o.File
      f₁ = (seek o pg.page_number f).1

      moved : Same o law f f₁
      moved = seek-Same o law pg.page_number f

      b : Buffer
      b = (law.read_count f₁ page_size_disk).0

      e : (o.read f₁ page_size_disk).0 ≡ some (min page_size_disk (law.size f₁ - law.offset f₁), b)
      e = (law.read_count f₁ page_size_disk).1

  -- After a page was written, its slot in the file decrypts to the page's buffer, where no call on
  -- the file fails.
  pub slot-write :
      (pg : DiskPage) (f : o.File)
      → Agree page_size (slot m o law c (write m o c pg f).1 pg.page_number) pg.buffer
  unfolding slot
  slot-write pg f i h =
      rw (le→leb (off + page_size_disk) (law.size (write m o c pg f).1) (omega (arith, w.size)))
        ((decrypt_page-encrypt_page m crypto c pg.page_number pg.buffer _ sent).1 i h)
    where
      off : ℕ
      off = page_offset pg.page_number

      w : Writes m o law c pg f (write m o c pg f)
      w = write-Writes m o law c pg f

      sent :
          Agree page_size_disk
            (λ j. law.byte (write m o c pg f).1 (off + j))
            (encrypt_page m c pg.page_number pg.buffer)
      sent j hj =
          let back : off + j - off ≡ j = omega arith in
          w.byte (off + j)
          ∙ rw (le→leb off (off + j) (omega arith))
              (rw (lt→ltb (off + j) (off + page_size_disk) (omega arith)) (rw back refl))

  -- A write of a page leaves what any other stored page decrypts to, for two pages below 1040448,
  -- where no call on the file fails.
  pub slot-write_other :
      (pg : DiskPage) (f : o.File) (q : ℕ)
      → pg.page_number < max_disk_pages
      → q < max_disk_pages
      → pg.page_number ≢ q
      → IsStored m o law c f q
      → Agree page_size (slot m o law c (write m o c pg f).1 q) (slot m o law c f q)
  unfolding slot decrypt_page
  slot-write_other pg f q hp hq ne stored i h =
      rw
        (le→leb (page_offset q + page_size_disk) (law.size (write m o c pg f).1)
          (omega (arith, w.size)))
        (rw (le→leb (page_offset q + page_size_disk) _ stored)
          (crypto.decrypt_local c.file_key _ page_size _ _ (λ j hj. kept j hj) i h))
    where
      w : Writes m o law c pg f (write m o c pg f)
      w = write-Writes m o law c pg f

      kept :
          Agree page_size
            (λ j. law.byte (write m o c pg f).1 (page_offset q + j))
            (λ j. law.byte f (page_offset q + j))
      kept j hj =
          ground (arith, w.byte (page_offset q + j), page_offset_apart pg.page_number q hp hq ne)

  -- Writing a page back leaves a page that lies beyond the end of the file empty, as long as the
  -- file holds the first `n` slots at most and the page written is one of them.
  pub slot-write_beyond :
      (pg : DiskPage) (f : o.File) (n q : ℕ)
      → n ≤ q
      → q < max_disk_pages
      → pg.page_number < n
      → law.size f ≤ n * page_size_disk
      → (law.size (write m o c pg f).1 ≤ n * page_size_disk)
        × Agree page_size (slot m o law c (write m o c pg f).1 q) (slot m o law c f q)
  unfolding slot
  slot-write_beyond pg f n q nq hq below extent =
      (grows, λ i h. rw (lt→not_leb _ _ far') (rw (lt→not_leb _ _ far) refl))
    where
      w : Writes m o law c pg f (write m o c pg f)
      w = write-Writes m o law c pg f

      grows : law.size (write m o c pg f).1 ≤ n * page_size_disk
      grows = omega (arith, w.size, page_offset_lem pg.page_number (omega arith))

      far : law.size f < page_offset q + page_size_disk
      far = omega (arith, page_offset_lem q hq)

      far' : law.size (write m o c pg f).1 < page_offset q + page_size_disk
      far' = omega (arith, grows, page_offset_lem q hq)

  -- A slot depends on the contents of the file alone.
  pub slot-Same :
      (f g : o.File) (q : ℕ)
      → Same o law f g
      → Agree page_size (slot m o law c g q) (slot m o law c f q)
  unfolding slot decrypt_page
  slot-Same f g q same i h = elim (Bool-cases (leb (page_offset q + page_size_disk) (law.size f))) [
    | inl stored ↦ rw (same.size) (
        rw stored (
          crypto.decrypt_local c.file_key _ page_size _ _ (λ j hj. same.byte (page_offset q + j)) i
            h))
    | inr short ↦ rw (same.size) (rw short refl)
  ]
