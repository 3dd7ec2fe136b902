-- ===== src/Tests/Platform.antt =====
-- Platforms to run the code of aes_vfs on: a file in memory, and a cipher that adds the IV.
use sqlite3gen.Base.{ℕ, ◌+◌, ◌-◌, refl, some, ◌&&◌, ltb, leb, if◌then◌else◌, min, max, arith}
use sqlite3gen.Vfs.Platform.{Mbedtls, IsMbedtls, Posix, IsPosix}

pub record MemFile : Type 0 where
  pub byte : ℕ → ℕ
  pub size : ℕ
  pub offset : ℕ

abbrev pub mem_posix : Posix
mem_posix = record {
  File = MemFile;
  lseek = λ f n. (some n, record f { offset = n });
  read = λ f n.
      let k = min n (f.size - f.offset) in
      (some (k, λ i. f.byte (f.offset + i)), record f { offset = f.offset + k });
  write = λ f b n. (
    some n,
    record {
      byte = λ i. if leb f.offset i && ltb i (f.offset + n) then b (i - f.offset) else f.byte i;
      size = max f.size (f.offset + n);
      offset = f.offset + n;
    },
  );
  fstat_size = λ f. some f.size;
  ftruncate = λ f n. record f { size = n };
}

abbrev pub mem_posix-IsPosix : IsPosix mem_posix
mem_posix-IsPosix = record {
  size = λ f. f.size;
  byte = λ f. f.byte;
  offset = λ f. f.offset;
  lseek_moves = λ f n. refl;
  lseek_offset = λ f n. refl;
  lseek_size = λ f n. refl;
  lseek_byte = λ f n i. refl;
  read_count = λ f n. ((λ i. f.byte (f.offset + i)), refl, λ i h. refl);
  read_size = λ f n. refl;
  read_byte = λ f n i. refl;
  read_offset = λ f n. refl;
  write_count = λ f b n. refl;
  write_size = λ f b n. refl;
  write_byte = λ f b n i. refl;
  write_offset = λ f b n. refl;
  fstat_reads = λ f. refl;
}

abbrev pub toy_mbedtls : Mbedtls
toy_mbedtls = record {
  sha256 = λ input length i. if ltb i length then input i + 1 else i;
  cbc_encrypt = λ key iv length input i. input i + iv i + key i;
  cbc_decrypt = λ key iv length input i. input i - iv i - key i;
  hmac = λ key length input i. if ltb i length then input i + key i else 0;
}

pub toy_mbedtls-IsMbedtls : IsMbedtls toy_mbedtls
toy_mbedtls-IsMbedtls = record {
  inverse = λ key iv n b i h. omega arith;
  decrypt_local = λ key iv n a b e i h. ground (arith, e i h);
  hmac_local = λ key n a b e i h. ground (arith, e i);
}

abbrev pub empty_file : MemFile
empty_file = record { byte = λ i. 0; size = 0; offset = 0 }
