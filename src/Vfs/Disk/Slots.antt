-- ===== src/Vfs/Disk/Slots.antt =====
-- aes_vfs/DiskPage.cc: what a page's slot on disk reads as, and which slots are apart.
use sqlite3gen.Base.{ℕ, ◌+◌, ◌*◌, ◌≤◌, ◌<◌, ◌≡◌, ◌≢◌, ◌⊎◌, arith, leb, if◌then◌else◌}
use sqlite3gen.Vfs.Memory.{Buffer, page_size_disk, zeros}
use sqlite3gen.Vfs.Platform.{Mbedtls, Posix, IsPosix}
use sqlite3gen.Vfs.Cipher.{PageCipher, decrypt_page}
use sqlite3gen.Vfs.Disk.{page_offset}

-- The pages whose slot starts below 2 ^ 32.
abbrev pub max_disk_pages : ℕ
max_disk_pages = 1040448

pub page_offset_lem : (p : ℕ) → p < max_disk_pages → page_offset p ≡ p * page_size_disk
unfolding page_offset
page_offset_lem p h = omega arith

-- Two different pages below 1040448 have slots that do not overlap.
pub page_offset_apart :
    (p q : ℕ)
    → p < max_disk_pages
    → q < max_disk_pages
    → p ≢ q
    → (page_offset p + page_size_disk ≤ page_offset q)
      ⊎ (page_offset q + page_size_disk ≤ page_offset p)
unfolding page_offset
page_offset_apart p q hp hq h = omega arith

-- Page 1040448 starts inside the slot of page 0.
pub page_offset_overlap : (page_offset 1040448 ≡ 2048) × (page_offset 0 ≡ 0)
unfolding page_offset
page_offset_overlap = omega arith

module _ (m : Mbedtls) (o : Posix) (law : IsPosix o) (c : PageCipher) where
  abbrev pub IsStored : o.File → ℕ → Type 0
  IsStored f p = page_offset p + page_size_disk ≤ law.size f

  -- The contents that a read of page `p` finds: zeros where the file has no whole slot for it.
  unfoldable pub slot : o.File → ℕ → Buffer
  slot f p =
      if leb (page_offset p + page_size_disk) (law.size f)
      then (decrypt_page m c p (λ i. law.byte f (page_offset p + i))).1
      else zeros
