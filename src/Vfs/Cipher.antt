-- ===== src/Vfs/Cipher.antt =====
-- aes_vfs/PageCipher.cc: the IV of a page, and a page with its HMAC.
-- The mbedtls contexts hold what `setKey` derived, so the state is the file key alone.
pub mod RoundTrip
use sqlite3gen.Base.{
  ℕ, zero, suc, ◌+◌, ◌-◌, ◌*◌, ◌%◌, ◌^◌, Bool, true, false, ◌&&◌, List, length, get_or, arith, ltb,
  ◌==◌, if◌then◌else◌,
}
use Prim.Native.Nat.{bit_xor}
use sqlite3gen.Vfs.Memory.{Buffer, page_size, memcpy, xor32, zeros}
use sqlite3gen.Vfs.Platform.{Mbedtls}
use sqlite3gen.Base.Text.{Text}

-- memcmp(a, b, n) == 0.
unfoldable pub equal_bytes : ℕ → Buffer → Buffer → Bool
equal_bytes zero a b = true
equal_bytes (suc n) a b = (a n == b n) && equal_bytes n a b

pub record PageCipher : Type 0 where
  pub file_key : Buffer

abbrev pub bytes_of : Text → Buffer
bytes_of t i = get_or t i 0

-- The loop over `ind` folds bytes 16 to 31 of the digest into bytes 0 to 15.
unfoldable pub fold_iv : Buffer → Buffer
fold_iv d i = if ltb i 16 then bit_xor (d i) (d (i + 16)) else d i

module _ (m : Mbedtls) where
  unfoldable pub set_key : Text → PageCipher
  set_key password = record { file_key = m.sha256 (bytes_of password) (length password) }

  unfoldable pub page_key : PageCipher → ℕ → Buffer
  page_key c pgno =
      let key = memcpy zeros 0 c.file_key 0 32 in
      let key0 = xor32 key 0 pgno in
      let key1 = xor32 key0 1 (bit_xor pgno 0xffff_ffff) in
      let key2 = xor32 key1 2 (bit_xor pgno 0xffff_0000) in xor32 key2 3 (bit_xor pgno 0x0000_ffff)

  unfoldable pub make_iv : PageCipher → ℕ → Buffer
  make_iv c pgno = fold_iv (m.sha256 (page_key c pgno) 32)

  -- The ciphertext, and behind it the HMAC of the ciphertext.
  unfoldable pub encrypt_page : PageCipher → ℕ → Buffer → Buffer
  encrypt_page c pgno input =
      let out = m.cbc_encrypt c.file_key (make_iv c pgno) page_size input in
      memcpy out page_size (m.hmac c.file_key page_size out) 0 32

  -- The page comes out also where the HMAC does not match; the result says whether it did.
  unfoldable pub decrypt_page : PageCipher → ℕ → Buffer → Bool × Buffer
  decrypt_page c pgno input =
      let hmac_buf = m.hmac c.file_key page_size input in
      let tag = λ (i : ℕ). input (page_size + i) in
      (equal_bytes 32 hmac_buf tag, m.cbc_decrypt c.file_key (make_iv c pgno) page_size input)
