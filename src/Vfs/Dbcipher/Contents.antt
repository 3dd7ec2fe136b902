-- ===== src/Vfs/Dbcipher/Contents.antt =====
-- aes_vfs/dbcipher.cc: what the encryption loop leaves in its output.
use sqlite3gen.Base.{
  ℕ, zero, suc, ◌+◌, ◌-◌, ◌*◌, ◌/◌, ◌%◌, ◌^◌, ◌≤◌, ◌<◌, ◌≡◌, ◌⊎◌, inl, inr, refl, sym, ◌∙◌, ap,
  subst, Option, some, ltb, leb, ◌&&◌, arith, Bool, false, Bool-cases, min, if◌then◌else◌,
}
use sqlite3gen.Vfs.Memory.{Buffer, Agree, page_size, page_size_disk, memcpy, memset}
use sqlite3gen.Vfs.Platform.{Mbedtls, Posix, IsPosix}
use sqlite3gen.Vfs.Cipher.{PageCipher, encrypt_page}
use sqlite3gen.Vfs.Dbcipher.{encrypt_loop, page_in}
use sqlite3gen.Vfs.Dbcipher.Rounds.{number-cases}

-- The bytes of a file of `size` bytes, with zeros behind its end.
abbrev pub padded : (size : ℕ) → (byte : ℕ → ℕ) → ℕ → ℕ
padded size byte i = if ltb i size then byte i else 0

abbrev pub count_pages : ℕ → ℕ
count_pages n = (n + (page_size - 1)) / page_size

upto-cases : (k n : ℕ) → k < n + 1 → (k < n) ⊎ (k ≡ n)
upto-cases k n h = elim (Bool-cases (ltb k n)) [
  | inl e ↦ inl (ground arith)
  | inr e ↦ inr (ground arith)
]

if-false : (p : Bool) (v w : ℕ) → p ≡ false → (if p then v else w) ≡ w
if-false p v w h = rw h refl

below : (p q : Bool) → p ≡ false → (p && q) ≡ false
below p q h = rw h refl

at_offset : (a i b : ℕ) → b ≡ a → a + i - b ≡ i
at_offset a i b e = omega arith

module _ (m : Mbedtls) (o : Posix) (law : IsPosix o) (c : PageCipher) (size : ℕ)
    (byte : ℕ → ℕ) where
  -- The slot of page `k` holds the encryption of that page of the input.
  pub record Stored (f : o.File) (k : ℕ) : Type 0 where
    pub page : Buffer
    pub plain : Agree page_size page (λ i. padded size byte (k * page_size + i))
    pub cipher :
        (i : ℕ)
        → i < page_size_disk
        → law.byte f (k * page_size_disk + i) ≡ encrypt_page m c k page i

  -- The input is read up to page `n`.
  pub record Read (n : ℕ) (f : o.File) : Type 0 where
    pub same_size : law.size f ≡ size
    pub same_bytes : (i : ℕ) → law.byte f i ≡ byte i
    pub at : law.offset f ≡ min (n * page_size) size

  -- The output holds the first `n` pages and no more.
  pub record Written (n : ℕ) (f : o.File) : Type 0 where
    pub stored : (k : ℕ) → k < n → Stored f k
    pub whole : law.size f ≡ n * page_size_disk
    pub end : law.offset f ≡ n * page_size_disk

  page_in-padded :
      (n got_bytes : ℕ) (got before : Buffer)
      → got_bytes ≡ min page_size (size - n * page_size)
      → ((i : ℕ) → i < got_bytes → got i ≡ byte (n * page_size + i))
      → Agree page_size
          (page_in m o c got_bytes got before)
          (λ i. padded size byte (n * page_size + i))
  unfolding page_in memcpy memset
  page_in-padded n k got before h g i b = ground (arith, g i)

  Stored-before :
      (n k : ℕ) (f : o.File) (out : Buffer)
      → k < n
      → law.offset f ≡ n * page_size_disk
      → Stored f k
      → Stored (o.write f out page_size_disk).1 k
  Stored-before n k f out h e s = record {
    page = s.page;
    plain = s.plain;
    cipher = λ i b.
        law.write_byte f out page_size_disk (k * page_size_disk + i)
        ∙ if-false _ _ _ (below (leb (law.offset f) (k * page_size_disk + i)) _ (ground arith))
        ∙ s.cipher i b;
  }

  Stored-now :
      (n : ℕ) (f : o.File) (page : Buffer)
      → Agree page_size page (λ i. padded size byte (n * page_size + i))
      → law.offset f ≡ n * page_size_disk
      → Stored (o.write f (encrypt_page m c n page) page_size_disk).1 n
  Stored-now n f page plain e =
      let out = encrypt_page m c n page in
      record {
        page = page;
        plain = plain;
        cipher = λ i b.
            law.write_byte f out page_size_disk (n * page_size_disk + i)
            ∙ ground (arith, ap out (at_offset (n * page_size_disk) i (law.offset f) e));
      }

  -- One more page.
  Written-next :
      (n : ℕ) (f : o.File) (page : Buffer)
      → Agree page_size page (λ i. padded size byte (n * page_size + i))
      → Written n f
      → Written (n + 1) (o.write f (encrypt_page m c n page) page_size_disk).1
  Written-next n f page plain w =
      let out = encrypt_page m c n page in
      record {
        stored = λ k h. elim (upto-cases k n h) [
          | inl b ↦ Stored-before n k f out b w.end (w.stored k b)
          | inr e ↦
              subst (λ j. Stored (o.write f out page_size_disk).1 j) (sym e)
                (Stored-now n f page plain w.end)
        ];
        whole = omega (arith, law.write_size f out page_size_disk, w.whole, w.end);
        end = omega (arith, law.write_offset f out page_size_disk, w.end);
      }

  Read-next : (n : ℕ) (f : o.File) → Read n f → Read (n + 1) (o.read f page_size).1
  Read-next n f r = record {
    same_size = law.read_size f page_size ∙ r.same_size;
    same_bytes = λ i. law.read_byte f page_size i ∙ r.same_bytes i;
    at = omega (arith, law.read_offset f page_size, r.same_size, r.at);
  }

  -- The loop ends, and its output holds every page of the input.
  pub record Encrypted (r : Option (ℕ × o.File)) : Type 0 where
    pub out : o.File
    pub returns : r ≡ some (count_pages size, out)
    pub written : Written (count_pages size) out

  pub encrypt_loop-Encrypted :
      (fuel : ℕ) (before : Buffer) (n : ℕ) (in_fd out_fd : o.File)
      → Read n in_fd
      → Written n out_fd
      → n ≤ count_pages size
      → count_pages size < fuel + n
      → count_pages size < 2 ^ 32
      → Encrypted (encrypt_loop m o c fuel before n in_fd out_fd)
  unfolding encrypt_loop
  encrypt_loop-Encrypted zero before n in_fd out_fd r w reached enough small =
      absurd (omega (arith, enough, reached))
  encrypt_loop-Encrypted (suc fuel) before n in_fd out_fd r w reached enough small =
      let (got, read, bytes) = law.read_count in_fd page_size in
      let left : min page_size (law.size in_fd - law.offset in_fd)
          ≡ min page_size (size - n * page_size) =
        omega (arith, r.same_size, r.at) in
      elim (number-cases (min page_size (law.size in_fd - law.offset in_fd))) [
        | inl none_left ↦
            let all : n ≡ count_pages size = omega (arith, left, none_left, reached) in
            rw (read, none_left, encrypt_loop)
              record {
                out = out_fd;
                returns = ap (λ k. some (k, out_fd)) all;
                written = subst (λ k. Written k out_fd) all w;
              }
        | inr (k, more) ↦
            let page = page_in m o c (suc k) got before in
            let plain : Agree page_size page (λ i. padded size byte (n * page_size + i)) =
              page_in-padded n (suc k) got before (omega (arith, left, more)) (λ i b.
                bytes i (omega (arith, more))
                ∙ r.same_bytes (law.offset in_fd + i)
                ∙ ap byte (omega (arith, r.at, left, more))) in
            let next : (n + 1) % 2 ^ 32 ≡ n + 1 = omega (arith, left, more, small) in
            let rest =
              encrypt_loop-Encrypted fuel page (n + 1) (o.read in_fd page_size).1
                (o.write out_fd (encrypt_page m c n page) page_size_disk).1 (Read-next n in_fd r)
                (Written-next n out_fd page plain w) (omega (arith, left, more))
                (omega (arith, enough)) small in
            rw
              (
                read,
                more,
                encrypt_loop,
                law.write_count out_fd (encrypt_page m c n page) page_size_disk,
                next,
              )
              rest
      ]
