-- ===== src/Vfs/Cipher/RoundTrip.antt =====
-- aes_vfs/PageCipher.cc: what the cipher promises to the page layer.
use sqlite3gen.Base.{ℕ, zero, suc, ◌+◌, ◌-◌, ◌<◌, ◌≡◌, refl, sym, ◌∙◌, true, arith, lt→ltb, le→leb}
use sqlite3gen.Vfs.Memory.{Buffer, Agree, page_size, memcpy}
use sqlite3gen.Vfs.Platform.{Mbedtls, IsMbedtls}
use sqlite3gen.Vfs.Cipher.{PageCipher, equal_bytes, make_iv, encrypt_page, decrypt_page}

pub equal_bytes_of_Agree : (n : ℕ) (a b : Buffer) → Agree n a b → equal_bytes n a b ≡ true
unfolding equal_bytes
equal_bytes_of_Agree zero a b h = refl
equal_bytes_of_Agree (suc n) a b h =
    ground (arith, h n, equal_bytes_of_Agree n a b (λ i p. h i (omega arith)))

pub Agree_of_equal_bytes : (n : ℕ) (a b : Buffer) → equal_bytes n a b ≡ true → Agree n a b
unfolding equal_bytes
Agree_of_equal_bytes zero a b h i p = elim p [ ]
Agree_of_equal_bytes (suc n) a b h i p = ground (arith, Agree_of_equal_bytes n a b (ground arith) i)

module _ (m : Mbedtls) (law : IsMbedtls m) (c : PageCipher) (pgno : ℕ) where
  encrypt_page_cipher :
      (input : Buffer)
      → Agree page_size
          (encrypt_page m c pgno input)
          (m.cbc_encrypt c.file_key (make_iv m c pgno) page_size input)
  unfolding encrypt_page memcpy
  encrypt_page_cipher input i h = ground arith

  encrypt_page_tag :
      (input : Buffer) (i : ℕ)
      → i < 32
      → encrypt_page m c pgno input (page_size + i)
        ≡ m.hmac c.file_key page_size
            (m.cbc_encrypt c.file_key (make_iv m c pgno) page_size input)
            i
  unfolding encrypt_page memcpy
  encrypt_page_tag input i h =
      let back : page_size + i - page_size + 0 ≡ i = omega arith in
      rw (le→leb page_size (page_size + i) (omega arith))
        (rw (lt→ltb (page_size + i) (page_size + 32) (omega arith)) (rw back refl))

  -- Bytes that agree with an encrypted page, in its 4128 bytes, decrypt to the 4096 bytes that
  -- were encrypted, and the HMAC matches, where the cipher decrypts what it encrypts.
  pub decrypt_page-encrypt_page :
      (input stored : Buffer)
      → Agree (page_size + 32) stored (encrypt_page m c pgno input)
      → ((decrypt_page m c pgno stored).0 ≡ true)
        × Agree page_size (decrypt_page m c pgno stored).1 input
  unfolding decrypt_page
  decrypt_page-encrypt_page input stored same = (
    equal_bytes_of_Agree 32 _ _ λ i h.
        law.hmac_local c.file_key page_size stored _ cipher i h
        ∙ sym (same (page_size + i) (omega arith) ∙ encrypt_page_tag input i h),
    λ i h.
        law.decrypt_local c.file_key _ page_size stored _ cipher i h
        ∙ law.inverse c.file_key _ page_size input i h,
  )
    where
      cipher : Agree page_size stored (m.cbc_encrypt c.file_key (make_iv m c pgno) page_size input)
      cipher i h = same i (omega arith) ∙ encrypt_page_cipher input i h
