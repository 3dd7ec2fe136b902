-- ===== src/Tests/Storage.antt =====
-- aes_vfs, run on a file in memory.
use sqlite3gen.Base.{ℕ, ◌+◌, ◌*◌, ◌≡◌, refl, arith, max}
use sqlite3gen.Vfs.Memory.{Buffer, Agree, page_size, zeros}
use sqlite3gen.Vfs.Cipher.{PageCipher}
use sqlite3gen.Vfs.Index.{PageIndex, IsPageIndex}
use sqlite3gen.Vfs.Index.Table.{hash_index, hash_index-IsPageIndex}
use sqlite3gen.Vfs.Pages.{PageCache, new_cache}
use sqlite3gen.Vfs.Pages.Invariant.{Inv, SameView}
use sqlite3gen.Vfs.Pages.Flush.{new_cache-Inv}
use sqlite3gen.Vfs.Cache.{DiskCache, read, write}
use sqlite3gen.Vfs.Cache.RoundTrip.{read-write}
use sqlite3gen.Vfs.Cache.Read.{Filled, read-Filled}
use sqlite3gen.Vfs.Cache.Reach.{Overwritten, last_page}
use sqlite3gen.Vfs.Cache.Write.{write-Overwritten}
use sqlite3gen.Tests.Platform.{
  mem_posix, mem_posix-IsPosix, toy_mbedtls, toy_mbedtls-IsMbedtls, empty_file,
}

abbrev pub index : PageIndex
index = hash_index 1

pub index-IsPageIndex : IsPageIndex index
index-IsPageIndex = hash_index-IsPageIndex 1 (omega arith)

abbrev pub key : PageCipher
key = record { file_key = λ i. i }

abbrev pub message : Buffer
message i = i * i + 1

abbrev pub fresh : ℕ → Buffer
fresh p i = 7

abbrev pub cache : PageCache toy_mbedtls mem_posix index
cache = new_cache toy_mbedtls mem_posix index key empty_file 2

pub cache-Inv : Inv toy_mbedtls mem_posix index mem_posix-IsPosix index-IsPageIndex 0 cache
cache-Inv =
    new_cache-Inv toy_mbedtls toy_mbedtls-IsMbedtls mem_posix mem_posix-IsPosix index
      index-IsPageIndex 0 key empty_file 2 (omega arith) refl

abbrev pub disk : DiskCache toy_mbedtls mem_posix index
disk = record { pc = cache; file_size = 0 }

read-write_example :
    Agree 6000
      (read toy_mbedtls mem_posix index fresh 100 zeros 6000
        (write toy_mbedtls mem_posix index fresh 100 message 6000 disk).1).1
      message
read-write_example =
    read-write toy_mbedtls toy_mbedtls-IsMbedtls mem_posix mem_posix-IsPosix index index-IsPageIndex
      0 fresh fresh 100 6000 message zeros disk (omega arith) (omega arith) (omega arith) refl
      cache-Inv

read-Filled_example :
    let r = read toy_mbedtls mem_posix index fresh 4000 message 200 disk in
    (r.0 ≡ 200)
    × Filled toy_mbedtls toy_mbedtls-IsMbedtls mem_posix mem_posix-IsPosix index index-IsPageIndex
        cache 4000 200 0 message r.1
    × Inv toy_mbedtls mem_posix index mem_posix-IsPosix index-IsPageIndex 0 r.2.pc
    × SameView toy_mbedtls mem_posix index mem_posix-IsPosix cache r.2.pc
    × (r.2.file_size ≡ 0)
read-Filled_example =
    read-Filled toy_mbedtls toy_mbedtls-IsMbedtls mem_posix mem_posix-IsPosix index
      index-IsPageIndex 0 fresh 4000 200 message disk (omega arith) (omega arith) cache-Inv

write-Overwritten_example :
    let r = write toy_mbedtls mem_posix index fresh 4000 message 200 disk in
    (r.0 ≡ 200)
    × Overwritten toy_mbedtls mem_posix mem_posix-IsPosix index cache r.1.pc 4000 200 0 message
    × Inv toy_mbedtls mem_posix index mem_posix-IsPosix index-IsPageIndex
        (max 0 (last_page 4000 200 + 1))
        r.1.pc
    × (r.1.file_size ≡ max 0 (last_page 4000 200 + 1) * page_size)
write-Overwritten_example =
    write-Overwritten toy_mbedtls toy_mbedtls-IsMbedtls mem_posix mem_posix-IsPosix index
      index-IsPageIndex 0 fresh 4000 200 message disk (omega arith) (omega arith) (omega arith) refl
      cache-Inv
