-- ===== src/Tests/Pages.antt =====
-- aes_vfs/PageCache.cc and DiskPage.cc, run on a file in memory.
use sqlite3gen.Base.{ℕ, ◌+◌, ◌≤◌, ◌≡◌, ◌≢◌, ◌⊎◌, refl, true, arith, length}
use sqlite3gen.Vfs.Memory.{Agree, page_size, page_size_disk}
use sqlite3gen.Vfs.Cipher.{encrypt_page, decrypt_page}
use sqlite3gen.Vfs.Cipher.RoundTrip.{decrypt_page-encrypt_page}
use sqlite3gen.Vfs.Disk.{DiskPage, page_offset, write}
use sqlite3gen.Vfs.Disk.Slots.{page_offset_apart, slot}
use sqlite3gen.Vfs.Disk.Transfer.{slot-write, slot-write_other}
use sqlite3gen.Vfs.Pages.{PageCache, new_cache, get_page, release_page, flush_pages}
use sqlite3gen.Vfs.Pages.Invariant.{SameView}
use sqlite3gen.Vfs.Pages.Drop.{IsPinned, Keeps}
use sqlite3gen.Vfs.Pages.Flush.{new_cache-flush_pages}
use sqlite3gen.Vfs.Pages.Get.{Gets, get_page-Gets}
use sqlite3gen.Vfs.Pages.Release.{release_page-Keeps}
use sqlite3gen.Tests.Platform.{
  MemFile, mem_posix, mem_posix-IsPosix, toy_mbedtls, toy_mbedtls-IsMbedtls, empty_file,
}
use sqlite3gen.Tests.Storage.{index, index-IsPageIndex, key, message, fresh, cache, cache-Inv}

decrypt_page-encrypt_page_example :
    ((decrypt_page toy_mbedtls key 3 (encrypt_page toy_mbedtls key 3 message)).0 ≡ true)
    × Agree page_size
        (decrypt_page toy_mbedtls key 3 (encrypt_page toy_mbedtls key 3 message)).1
        message
decrypt_page-encrypt_page_example =
    decrypt_page-encrypt_page toy_mbedtls toy_mbedtls-IsMbedtls key 3 message
      (encrypt_page toy_mbedtls key 3 message) (λ i h. refl)

abbrev page_3 : DiskPage
page_3 = record { page_number = 3; buffer = message; dirty = true }

page_offset_apart_example :
    (page_offset 2 + page_size_disk ≤ page_offset 1000000)
    ⊎ (page_offset 1000000 + page_size_disk ≤ page_offset 2)
page_offset_apart_example = page_offset_apart 2 1000000 (omega arith) (omega arith) (omega arith)

slot-write_example :
    Agree page_size
      (slot toy_mbedtls mem_posix mem_posix-IsPosix key
        (write toy_mbedtls mem_posix key page_3 empty_file).1
        3)
      message
slot-write_example =
    slot-write toy_mbedtls toy_mbedtls-IsMbedtls mem_posix mem_posix-IsPosix key page_3 empty_file

abbrev long_file : MemFile
long_file = record { byte = λ i. i; size = 41280; offset = 5 }

slot-write_other_example :
    Agree page_size
      (slot toy_mbedtls mem_posix mem_posix-IsPosix key
        (write toy_mbedtls mem_posix key page_3 long_file).1
        4)
      (slot toy_mbedtls mem_posix mem_posix-IsPosix key long_file 4)
unfolding page_offset
slot-write_other_example =
    slot-write_other toy_mbedtls toy_mbedtls-IsMbedtls mem_posix mem_posix-IsPosix key page_3
      long_file 4 (omega arith) (omega arith) (omega arith) (omega arith)

get_page-Gets_example :
    Gets toy_mbedtls toy_mbedtls-IsMbedtls mem_posix mem_posix-IsPosix index index-IsPageIndex 0 7
      cache
      (get_page toy_mbedtls mem_posix index fresh 7 cache)
get_page-Gets_example =
    get_page-Gets toy_mbedtls toy_mbedtls-IsMbedtls mem_posix mem_posix-IsPosix index
      index-IsPageIndex 0 fresh 7 cache (omega arith) cache-Inv

-- The cache with page 7 in use.
abbrev busy : PageCache toy_mbedtls mem_posix index
busy = (get_page toy_mbedtls mem_posix index fresh 7 cache).1

abbrev page_7 : ℕ
page_7 = (get_page toy_mbedtls mem_posix index fresh 7 cache).0

busy-Gets :
    Gets toy_mbedtls toy_mbedtls-IsMbedtls mem_posix mem_posix-IsPosix index index-IsPageIndex 0 7
      cache
      (get_page toy_mbedtls mem_posix index fresh 7 cache)
busy-Gets =
    get_page-Gets toy_mbedtls toy_mbedtls-IsMbedtls mem_posix mem_posix-IsPosix index
      index-IsPageIndex 0 fresh 7 cache (omega arith) cache-Inv

release_page-Keeps_example :
    Keeps toy_mbedtls toy_mbedtls-IsMbedtls mem_posix mem_posix-IsPosix index index-IsPageIndex 0
      (λ q.
        (q ≢ page_7)
        × IsPinned toy_mbedtls toy_mbedtls-IsMbedtls mem_posix mem_posix-IsPosix index
            index-IsPageIndex 0 busy q)
      busy
      (release_page toy_mbedtls mem_posix index page_7 busy)
    × (length (release_page toy_mbedtls mem_posix index page_7 busy).page_lru ≤ busy.max_pages)
release_page-Keeps_example =
    release_page-Keeps toy_mbedtls toy_mbedtls-IsMbedtls mem_posix mem_posix-IsPosix index
      index-IsPageIndex 0 page_7 busy (busy-Gets.keeps.inv) (busy-Gets.pinned.0)

new_cache-flush_pages_example : SameView toy_mbedtls mem_posix index mem_posix-IsPosix busy (
    new_cache toy_mbedtls mem_posix index busy.cipher
      (flush_pages toy_mbedtls mem_posix index busy).file
      9)
new_cache-flush_pages_example =
    new_cache-flush_pages toy_mbedtls toy_mbedtls-IsMbedtls mem_posix mem_posix-IsPosix index
      index-IsPageIndex 0 busy 9 (busy-Gets.keeps.inv)
