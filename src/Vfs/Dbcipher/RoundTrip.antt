-- ===== src/Vfs/Dbcipher/RoundTrip.antt =====
-- aes_vfs/dbcipher.cc: a file that is encrypted and then decrypted is the file, filled up with zeros to
-- whole pages.
use sqlite3gen.Base.{ℕ, ◌+◌, ◌*◌, ◌^◌, ◌<◌, ◌≡◌, refl, ◌∙◌, ap, some, List, [], ◌∷◌, arith}
use sqlite3gen.Base.Text.{Text, codes}
use sqlite3gen.Base.Result.{ok}
use sqlite3gen.Vfs.Memory.{Buffer, page_size, page_size_disk}
use sqlite3gen.Vfs.Platform.{Mbedtls, IsMbedtls, Posix, IsPosix}
use sqlite3gen.Vfs.Cipher.{PageCipher, set_key}
use sqlite3gen.Vfs.Dbcipher.{
  encrypt_loop, decrypt_loop, Outcome, pages_read, outcome, cipher_loop, with_files, main,
}
use sqlite3gen.Vfs.Dbcipher.Contents.{padded, count_pages, Written, encrypt_loop-Encrypted}
use sqlite3gen.Vfs.Dbcipher.Decryption.{decrypt_loop-Decrypted}

module _ (m : Mbedtls) (mlaw : IsMbedtls m) (o : Posix) (law : IsPosix o) (c : PageCipher) where
  -- Both loops end, with the count of the pages of the input, and the second output has the bytes of the
  -- input and zeros up to the end of its last page.
  pub record RoundTrips (fuel : ℕ) (before : Buffer) (in_fd out_fd plain_fd : o.File)
      (reopen : o.File → o.File) : Type 0 where
    pub encrypted : o.File
    pub decrypted : o.File
    pub encrypts :
        encrypt_loop m o c fuel before 0 in_fd out_fd
        ≡ some (count_pages (law.size in_fd), encrypted)
    pub decrypts :
        decrypt_loop m o c fuel 0 (reopen encrypted) plain_fd
        ≡ some (count_pages (law.size in_fd), decrypted)
    pub whole : law.size decrypted ≡ count_pages (law.size in_fd) * page_size
    pub bytes :
        (i : ℕ)
        → i < count_pages (law.size in_fd) * page_size
        → law.byte decrypted i ≡ padded (law.size in_fd) (law.byte in_fd) i

  -- Nothing is left to say of the pages of an empty file.
  Written-empty :
      (f in_fd : o.File)
      → law.size f ≡ 0
      → law.offset f ≡ 0
      → Written m o law c (law.size in_fd) (law.byte in_fd) 0 f
  Written-empty f in_fd s e = record {
    stored = λ k h. absurd (omega (arith, h));
    whole = omega (arith, s);
    end = omega (arith, e);
  }

  pub decrypt_loop-encrypt_loop :
      (fuel : ℕ) (before : Buffer) (in_fd out_fd plain_fd : o.File) (reopen : o.File → o.File)
      → law.offset in_fd ≡ 0
      → law.size out_fd ≡ 0
      → law.offset out_fd ≡ 0
      → law.size plain_fd ≡ 0
      → law.offset plain_fd ≡ 0
      → ((f : o.File) → law.size (reopen f) ≡ law.size f)
      → ((f : o.File) (i : ℕ) → law.byte (reopen f) i ≡ law.byte f i)
      → ((f : o.File) → law.offset (reopen f) ≡ 0)
      → count_pages (law.size in_fd) < fuel
      → count_pages (law.size in_fd) < 2 ^ 32
      → RoundTrips fuel before in_fd out_fd plain_fd reopen
  decrypt_loop-encrypt_loop fuel before in_fd out_fd plain_fd reopen a b d e g same_size same_bytes
        start enough small =
      let size = law.size in_fd in
      let byte = law.byte in_fd in
      let first =
        encrypt_loop-Encrypted m o law c size byte fuel before 0 in_fd out_fd
          (record { same_size = refl; same_bytes = λ i. refl; at = omega (arith, a) })
          (Written-empty out_fd in_fd b d) (omega arith) (omega (arith, enough)) small in
      let f = reopen first.out in
      let second =
        decrypt_loop-Decrypted m mlaw o law c size byte fuel 0 f plain_fd
          (record {
            stored = λ k h.
                let s = first.written.stored k h in
                record {
                  page = s.page;
                  plain = s.plain;
                  cipher = λ i l. same_bytes first.out (k * page_size_disk + i) ∙ s.cipher i l;
                };
            whole = same_size first.out ∙ first.written.whole;
            at = omega (arith, start first.out);
          })
          (record {
            bytes = λ i h. absurd (omega (arith, h));
            whole = omega (arith, e);
            end = omega (arith, g);
          })
          (omega arith) (omega (arith, enough)) small in
      record {
        encrypted = first.out;
        decrypted = second.out;
        encrypts = first.returns;
        decrypts = second.returns;
        whole = second.plain.whole;
        bytes = second.plain.bytes;
      }

-- The arguments of a run.
abbrev pub command : (name mode password infile outfile : Text) → List Text
command name mode password infile outfile = name ∷ mode ∷ password ∷ infile ∷ outfile ∷ []

module _ (m : Mbedtls) (mlaw : IsMbedtls m) (o : Posix) (law : IsPosix o) where
  -- Both runs read all pages of the input, and the last output has the bytes of the input and zeros up to
  -- the end of its last page.
  pub record Restores (in_fd : o.File) (first : Outcome o.File) (second : o.File → Outcome o.File)
      : Type 0 where
    pub encrypted : o.File
    pub decrypted : o.File
    pub first_ends : first ≡ pages_read (count_pages (law.size in_fd)) encrypted
    pub second_ends : second encrypted ≡ pages_read (count_pages (law.size in_fd)) decrypted
    pub whole : law.size decrypted ≡ count_pages (law.size in_fd) * page_size
    pub bytes :
        (i : ℕ)
        → i < count_pages (law.size in_fd) * page_size
        → law.byte decrypted i ≡ padded (law.size in_fd) (law.byte in_fd) i

  module _ (name password infile outfile restored : Text) (in_fd empty : o.File)
      (reopen : o.File → o.File) where
    -- A run of dbcipher that encrypts a file and a run with the same password that decrypts its
    -- output both read all pages of the file, and the last output has the bytes of the file and
    -- zeros up to the end of its last page, where every open succeeds with an output that is
    -- empty, no call on the files fails, the cipher decrypts what it encrypts, the fuel is more
    -- than the pages of the file, and these are fewer than 2 ^ 32.
    pub main-main :
        (fuel : ℕ) (before : Buffer)
        → law.offset in_fd ≡ 0
        → law.size empty ≡ 0
        → law.offset empty ≡ 0
        → ((f : o.File) → law.size (reopen f) ≡ law.size f)
        → ((f : o.File) (i : ℕ) → law.byte (reopen f) i ≡ law.byte f i)
        → ((f : o.File) → law.offset (reopen f) ≡ 0)
        → count_pages (law.size in_fd) < fuel
        → count_pages (law.size in_fd) < 2 ^ 32
        → Restores in_fd
            (main m o
              (λ n. ok in_fd)
              (λ n. ok empty)
              fuel
              before
              (command name (codes "e") password infile outfile))
            (λ f.
              main m o
                (λ n. ok (reopen f))
                (λ n. ok empty)
                fuel
                before
                (command name (codes "d") password outfile restored))
    unfolding main with_files cipher_loop
    main-main fuel before a b d same_size same_bytes start enough small =
        let r =
          decrypt_loop-encrypt_loop m mlaw o law (set_key m password) fuel before in_fd empty empty
            reopen a b d b d same_size same_bytes start enough small in
        record {
          encrypted = r.encrypted;
          decrypted = r.decrypted;
          first_ends = ap outcome r.encrypts;
          second_ends = ap outcome r.decrypts;
          whole = r.whole;
          bytes = r.bytes;
        }
