-- ===== src/Vfs/Platform.antt =====
-- What the file layer calls and does not implement: mbedtls and the system calls on one open file.
-- `Mbedtls` and `Posix` hold the operations; `IsMbedtls` and `IsPosix` hold what their
-- documentation says of them, and only theorems take those.
use sqlite3gen.Base.{ℕ, ◌+◌, ◌-◌, ◌<◌, ◌≡◌, ◌&&◌, Option, some, min, max, ltb, leb, if◌then◌else◌}
use sqlite3gen.Vfs.Memory.{Buffer, Agree}

-- SHA-256, AES-CBC and HMAC-SHA-256 as functions of their inputs: key, IV, length, data.
pub record Mbedtls : Type 0 where
  pub sha256 : (input : Buffer) (length : ℕ) → Buffer
  pub cbc_encrypt : (key iv : Buffer) (length : ℕ) (input : Buffer) → Buffer
  pub cbc_decrypt : (key iv : Buffer) (length : ℕ) (input : Buffer) → Buffer
  pub hmac : (key : Buffer) (length : ℕ) (input : Buffer) → Buffer

-- Decryption undoes encryption under the same key and IV; both read `length` bytes and no more.
pub record IsMbedtls (m : Mbedtls) : Type 0 where
  pub inverse :
      (key iv : Buffer) (n : ℕ) (b : Buffer)
      → Agree n (m.cbc_decrypt key iv n (m.cbc_encrypt key iv n b)) b
  pub decrypt_local :
      (key iv : Buffer) (n : ℕ) (a b : Buffer)
      → Agree n a b
      → Agree n (m.cbc_decrypt key iv n a) (m.cbc_decrypt key iv n b)
  pub hmac_local :
      (key : Buffer) (n : ℕ) (a b : Buffer)
      → Agree n a b
      → Agree 32 (m.hmac key n a) (m.hmac key n b)

-- The calls on a descriptor. `File` is the open file with its contents and its offset; a failed
-- call gives `none`, and a read or write that succeeds gives the count of bytes.
pub record Posix : Type 1 where
  pub File : Type 0
  pub lseek : File → ℕ → Option ℕ × File
  pub read : File → ℕ → Option (ℕ × Buffer) × File
  pub write : File → Buffer → ℕ → Option ℕ × File
  pub fstat_size : File → Option ℕ
  pub ftruncate : File → ℕ → File

-- What POSIX says of a regular file on which no call fails and no write is short.
pub record IsPosix (o : Posix) : Type 0 where
  pub size : o.File → ℕ
  pub byte : o.File → ℕ → ℕ
  pub offset : o.File → ℕ
  pub lseek_moves : (f : o.File) (n : ℕ) → (o.lseek f n).0 ≡ some n
  pub lseek_offset : (f : o.File) (n : ℕ) → offset (o.lseek f n).1 ≡ n
  pub lseek_size : (f : o.File) (n : ℕ) → size (o.lseek f n).1 ≡ size f
  pub lseek_byte : (f : o.File) (n i : ℕ) → byte (o.lseek f n).1 i ≡ byte f i
  pub read_count :
      (f : o.File) (n : ℕ)
      → (b : Buffer) × ((o.read f n).0 ≡ some (min n (size f - offset f), b))
        × ((i : ℕ) → i < min n (size f - offset f) → b i ≡ byte f (offset f + i))
  pub read_size : (f : o.File) (n : ℕ) → size (o.read f n).1 ≡ size f
  pub read_byte : (f : o.File) (n i : ℕ) → byte (o.read f n).1 i ≡ byte f i
  pub read_offset :
      (f : o.File) (n : ℕ) → offset (o.read f n).1 ≡ offset f + min n (size f - offset f)
  pub write_count : (f : o.File) (b : Buffer) (n : ℕ) → (o.write f b n).0 ≡ some n
  pub write_size :
      (f : o.File) (b : Buffer) (n : ℕ) → size (o.write f b n).1 ≡ max (size f) (offset f + n)
  pub write_byte :
      (f : o.File) (b : Buffer) (n i : ℕ)
      → byte (o.write f b n).1 i
        ≡ (if leb (offset f) i && ltb i (offset f + n) then b (i - offset f) else byte f i)
  pub write_offset : (f : o.File) (b : Buffer) (n : ℕ) → offset (o.write f b n).1 ≡ offset f + n
  pub fstat_reads : (f : o.File) → o.fstat_size f ≡ some (size f)
