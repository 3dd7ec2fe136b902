-- ===== src/Vfs/Dbcipher/Decryption.antt =====
-- aes_vfs/dbcipher.cc: what the decryption loop makes of an encrypted file.
use sqlite3gen.Base.{
  ℕ, zero, suc, ◌+◌, ◌-◌, ◌*◌, ◌%◌, ◌^◌, ◌≤◌, ◌<◌, ◌≡◌, inl, inr, ◌∙◌, ap, subst, Option, some, ltb,
  arith, Bool-cases, min,
}
use sqlite3gen.Vfs.Memory.{Buffer, Agree, page_size, page_size_disk}
use sqlite3gen.Vfs.Platform.{Mbedtls, IsMbedtls, Posix, IsPosix}
use sqlite3gen.Vfs.Cipher.{PageCipher, encrypt_page, decrypt_page}
use sqlite3gen.Vfs.Cipher.RoundTrip.{decrypt_page-encrypt_page}
use sqlite3gen.Vfs.Dbcipher.{decrypt_loop}
use sqlite3gen.Vfs.Dbcipher.Contents.{padded, count_pages, Stored}

module _ (m : Mbedtls) (mlaw : IsMbedtls m) (o : Posix) (law : IsPosix o) (c : PageCipher)
    (size : ℕ) (byte : ℕ → ℕ) where
  -- An encrypted file of all pages, read up to page `n`.
  pub record Ready (n : ℕ) (f : o.File) : Type 0 where
    pub stored : (k : ℕ) → k < count_pages size → Stored m o law c size byte f k
    pub whole : law.size f ≡ count_pages size * page_size_disk
    pub at : law.offset f ≡ n * page_size_disk

  -- A file of the first `n` pages of the input.
  pub record Plain (n : ℕ) (f : o.File) : Type 0 where
    pub bytes : (i : ℕ) → i < n * page_size → law.byte f i ≡ padded size byte i
    pub whole : law.size f ≡ n * page_size
    pub end : law.offset f ≡ n * page_size

  Ready-next :
      (n : ℕ) (f : o.File)
      → n < count_pages size
      → Ready n f
      → Ready (n + 1) (o.read f page_size_disk).1
  Ready-next n f h r = record {
    stored = λ k b.
        let s = r.stored k b in
        record {
          page = s.page;
          plain = s.plain;
          cipher = λ i l. law.read_byte f page_size_disk (k * page_size_disk + i) ∙ s.cipher i l;
        };
    whole = law.read_size f page_size_disk ∙ r.whole;
    at = omega (arith, h, law.read_offset f page_size_disk, r.whole, r.at);
  }

  -- The byte `i` of a file in which the page `n` was written last.
  page_byte :
      (n i : ℕ) (f : o.File) (page : Buffer)
      → Agree page_size page (λ j. padded size byte (n * page_size + j))
      → Plain n f
      → i < (n + 1) * page_size
      → law.byte (o.write f page page_size).1 i ≡ padded size byte i
  page_byte n i f page plain p h = elim (Bool-cases (ltb i (n * page_size))) [
    | inl e ↦
        law.write_byte f page page_size i ∙ ground (arith, p.end, e) ∙ p.bytes i (ground arith)
    | inr e ↦
        law.write_byte f page page_size i
        ∙ ground (arith, p.end, e, h)
        ∙ plain (i - law.offset f) (ground (arith, p.end, e, h))
        ∙ ap (padded size byte) (ground (arith, p.end, e, h))
  ]

  Plain-next :
      (n : ℕ) (f : o.File) (page : Buffer)
      → Agree page_size page (λ j. padded size byte (n * page_size + j))
      → Plain n f
      → Plain (n + 1) (o.write f page page_size).1
  Plain-next n f page plain p = record {
    bytes = λ i h. page_byte n i f page plain p h;
    whole = omega (arith, law.write_size f page page_size, p.whole, p.end);
    end = omega (arith, law.write_offset f page page_size, p.end);
  }

  -- The loop ends, and its output holds every page.
  pub record Decrypted (r : Option (ℕ × o.File)) : Type 0 where
    pub out : o.File
    pub returns : r ≡ some (count_pages size, out)
    pub plain : Plain (count_pages size) out

  pub decrypt_loop-Decrypted :
      (fuel n : ℕ) (f g : o.File)
      → Ready n f
      → Plain n g
      → n ≤ count_pages size
      → count_pages size < fuel + n
      → count_pages size < 2 ^ 32
      → Decrypted (decrypt_loop m o c fuel n f g)
  unfolding decrypt_loop
  decrypt_loop-Decrypted zero n f g r p reached enough small =
      absurd (omega (arith, enough, reached))
  decrypt_loop-Decrypted (suc fuel) n f g r p reached enough small =
      let (got, read, bytes) = law.read_count f page_size_disk in
      elim (Bool-cases (ltb n (count_pages size))) [
        | inr e ↦
            let all : n ≡ count_pages size = ground (arith, e, reached) in
            let none_left : min page_size_disk (law.size f - law.offset f) ≡ 0 =
              omega (arith, all, r.whole, r.at) in
            rw (read, none_left, decrypt_loop)
              record {
                out = g;
                returns = ap (λ k. some (k, g)) all;
                plain = subst (λ k. Plain k g) all p;
              }
        | inl e ↦
            let here : n < count_pages size = ground (arith, e) in
            let full : min page_size_disk (law.size f - law.offset f) ≡ page_size_disk =
              omega (arith, here, r.whole, r.at) in
            let s = r.stored n here in
            let same : Agree page_size_disk got (encrypt_page m c n s.page) = λ i b.
              bytes i (omega (arith, full, b))
              ∙ ap (law.byte f) (omega (arith, r.at))
              ∙ s.cipher i b in
            let page = (decrypt_page m c n got).1 in
            let plain : Agree page_size page (λ j. padded size byte (n * page_size + j)) =
              λ i b. (decrypt_page-encrypt_page m mlaw c n s.page got same).1 i b ∙ s.plain i b in
            let next : (n + 1) % 2 ^ 32 ≡ n + 1 = omega (arith, here, small) in
            let rest =
              decrypt_loop-Decrypted fuel (n + 1) (o.read f page_size_disk).1
                (o.write g page page_size).1 (Ready-next n f here r) (Plain-next n g page plain p)
                (omega (arith, here)) (omega (arith, enough)) small in
            rw (read, full, decrypt_loop, law.write_count g page page_size, next) rest
      ]
