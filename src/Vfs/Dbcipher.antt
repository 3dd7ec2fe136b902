-- ===== src/Vfs/Dbcipher.antt =====
-- aes_vfs/dbcipher.cc: `main`, with the loops that encrypt and decrypt a file. The system's `open` is a
-- parameter, for the input and for the output; of what is printed the count stands in the outcome. The input and the output are two open files. The local buffers go from round to round. `fuel`
-- bounds the rounds. A result is the count of pages and the output; `none` says that the fuel ran out.
pub mod Rounds
pub mod Contents
pub mod Decryption
pub mod RoundTrip
use sqlite3gen.Base.{
  ℕ, zero, suc, ◌+◌, ◌-◌, ◌%◌, ◌^◌, true, false, Option, none, some, List, [], ◌∷◌, ◌==◌,
  if◌then◌else◌,
}
use sqlite3gen.Base.Text.{Text}
use sqlite3gen.Base.Result.{Result, ok, err}
use sqlite3gen.Vfs.Memory.{Buffer, page_size, page_size_disk, memcpy, memset}
use sqlite3gen.Vfs.Platform.{Mbedtls, Posix}
use sqlite3gen.Vfs.Cipher.{PageCipher, set_key, encrypt_page, decrypt_page}

module _ (m : Mbedtls) (o : Posix) (c : PageCipher) where
  -- What the buffer holds after a read of `cc` bytes of a page: the rest is zeros.
  unfoldable pub page_in : (cc : ℕ) → (got before : Buffer) → Buffer
  page_in cc got before =
      let buf = memcpy before 0 got 0 cc in
      if cc == page_size then buf else memset buf cc 0 (page_size - cc)

  unfoldable pub encrypt_loop :
      (fuel : ℕ) (page_buffer : Buffer) (pgno : ℕ) → o.File → o.File → Option (ℕ × o.File)
  unfolding page_in
  encrypt_loop zero page_buffer pgno in_fd out_fd = none
  encrypt_loop (suc fuel) page_buffer pgno in_fd out_fd =
      let (r, in') = o.read in_fd page_size in
      elim r [
        | none ↦ some (pgno, out_fd)
        | some (zero, got) ↦ some (pgno, out_fd)
        | some (suc k, got) ↦
            let buf = page_in (suc k) got page_buffer in
            let (w, out') = o.write out_fd (encrypt_page m c pgno buf) page_size_disk in
            elim w [
              | none ↦ some (pgno, out')
              | some cc ↦ elim (cc == page_size_disk) [
                | true ↦ encrypt_loop fuel buf ((pgno + 1) % 2 ^ 32) in' out'
                | false ↦ some (pgno, out')
              ]
            ]
      ]

  unfoldable pub decrypt_loop : (fuel : ℕ) (pgno : ℕ) → o.File → o.File → Option (ℕ × o.File)
  decrypt_loop zero pgno in_fd out_fd = none
  decrypt_loop (suc fuel) pgno in_fd out_fd =
      let (r, in') = o.read in_fd page_size_disk in
      elim r [
        | none ↦ some (pgno, out_fd)
        | some (cc, got) ↦ elim (cc == page_size_disk) [
          | false ↦ some (pgno, out_fd)
          | true ↦
              let (w, out') = o.write out_fd (decrypt_page m c pgno got).1 page_size in
              elim w [
                | none ↦ some (pgno, out')
                | some cc' ↦ elim (cc' == page_size) [
                  | true ↦ decrypt_loop fuel ((pgno + 1) % 2 ^ 32) in' out'
                  | false ↦ some (pgno, out')
                ]
              ]
        ]
      ]

-- How `main` ends. The first three end with 1, after what the program prints.
pub data Outcome (F : Type 0) : Type 0 where
  usage : Outcome F
  no_input : (errno : ℕ) → Outcome F
  no_output : (errno : ℕ) → Outcome F
  out_of_fuel : Outcome F
  pages_read : (count : ℕ) → F → Outcome F

-- What `argv[1][0]` asks for.
pub data Mode : Type 0 where
  encrypt : Mode
  decrypt : Mode

abbrev pub mode_of : Text → Option Mode
mode_of [] = none
mode_of (c ∷ cs) = if c == 101 then some encrypt else if c == 100 then some decrypt else none

abbrev pub outcome : {F : Type 0} → Option (ℕ × F) → Outcome F
outcome none = out_of_fuel
outcome (some (count, f)) = pages_read count f

module _ (m : Mbedtls) (o : Posix) where
  -- The loop that the mode selects, under the key of the password.
  unfoldable pub cipher_loop :
      Mode → (fuel : ℕ) (page_buffer : Buffer) (password : Text) → o.File → o.File → Outcome o.File
  unfolding encrypt_loop decrypt_loop
  cipher_loop encrypt fuel page_buffer password in_fd out_fd =
      outcome (encrypt_loop m o (set_key m password) fuel page_buffer 0 in_fd out_fd)
  cipher_loop decrypt fuel page_buffer password in_fd out_fd =
      outcome (decrypt_loop m o (set_key m password) fuel 0 in_fd out_fd)

  module _ (open_input open_output : Text → Result ℕ o.File) (fuel : ℕ) (page_buffer : Buffer) where
    unfoldable pub with_files : Mode → (password infile outfile : Text) → Outcome o.File
    unfolding cipher_loop
    with_files mode password infile outfile = elim (open_input infile) [
      | err errno ↦ no_input errno
      | ok in_fd ↦ elim (open_output outfile) [
        | err errno ↦ no_output errno
        | ok out_fd ↦ cipher_loop mode fuel page_buffer password in_fd out_fd
      ]
    ]

    -- The arguments with the name of the program, `argc` being their count.
    unfoldable pub main : (argv : List Text) → Outcome o.File
    unfolding with_files
    main (name ∷ mode ∷ password ∷ infile ∷ outfile ∷ []) = elim (mode_of mode) [
      | none ↦ usage
      | some mode ↦ with_files mode password infile outfile
    ]
    main _ = usage
