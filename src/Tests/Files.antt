-- ===== src/Tests/Files.antt =====
-- aes_vfs/aes_vfs_file.cc and aes_vfs.cc, run on files in memory.
use sqlite3gen.Base.{◌==◌, ℕ, none, some, List, ◌≡◌, refl, [], ◌∷◌, arith, if◌then◌else◌}
use sqlite3gen.Base.Result.{ok}
use sqlite3gen.Base.Text.{codes}
use sqlite3gen.Dll.Sequence.{erase, has, Nodup}
use sqlite3gen.Vfs.Memory.{Agree, zeros}
use sqlite3gen.Vfs.Files.{
  Vfs, FileSystem, register_file, unregister_file, opened, my_x_open, x_open, x_close, x_read,
  x_write, vfs_sync,
}
use sqlite3gen.Vfs.Files.Codes.{sqlite_ok}
use sqlite3gen.Vfs.Files.Laws.{x_read-x_write}
use sqlite3gen.Vfs.Files.Sync.{IsFileSystem, vfs_sync-SameView}
use sqlite3gen.Vfs.Cache.{DiskCache, write}
use sqlite3gen.Vfs.Cache.Write.{write-Overwritten}
use sqlite3gen.Vfs.Pages.{new_cache, flush_pages}
use sqlite3gen.Vfs.Pages.Invariant.{Inv, SameView}
use sqlite3gen.Vfs.Files.Opened.{FileCall, call_open, call_close, call, run, known_open, run-Listed}
use sqlite3gen.Vfs.Dbcipher.{encrypt_loop, main, usage}
use sqlite3gen.Vfs.Dbcipher.RoundTrip.{Restores, command, main-main}
use sqlite3gen.Vfs.Dbcipher.Rounds.{Encrypts, encrypt_loop-Encrypts}
use sqlite3gen.Tests.Platform.{
  MemFile, mem_posix, mem_posix-IsPosix, toy_mbedtls, toy_mbedtls-IsMbedtls, empty_file,
}
use sqlite3gen.Tests.Storage.{index, index-IsPageIndex, key, message, fresh, disk, cache-Inv}

abbrev mem_files : FileSystem mem_posix
mem_files = record { open_file = λ name. ok empty_file; fsync = λ f. f }

abbrev two_files : Vfs toy_mbedtls mem_posix index
two_files = record { files = 8 ∷ 3 ∷ []; dc = λ f. disk; last_err = 0; cipher = key }

two_files-Nodup : Nodup (8 ∷ 3 ∷ [])
unfolding has
two_files-Nodup = (refl, (refl, tt))

abbrev file_calls : List FileCall
file_calls =
    call_open (some (codes "a.db")) 5 6
    ∷ call_open none 6 6
    ∷ call_close 8
    ∷ call_open (some (codes "b.db")) 7 6
    ∷ []

run-Listed_example :
    Nodup (run toy_mbedtls mem_posix index mem_files file_calls two_files).1.files
    × ((z : ℕ)
        → has z (run toy_mbedtls mem_posix index mem_files file_calls two_files).1.files
          ≡ known_open file_calls
              (run toy_mbedtls mem_posix index mem_files file_calls two_files).0
              (λ q. has q (8 ∷ 3 ∷ []))
              z)
unfolding call my_x_open x_open opened x_close register_file unregister_file has erase
run-Listed_example =
    run-Listed toy_mbedtls mem_posix index mem_files file_calls (λ q. has q (8 ∷ 3 ∷ [])) two_files
      two_files-Nodup (λ z. refl) (refl, (refl, (tt, (refl, tt))))

mem_files-IsFileSystem : IsFileSystem mem_posix mem_posix-IsPosix mem_files
mem_files-IsFileSystem = record { fsync_size = λ f. refl; fsync_byte = λ f i. refl }

-- The object 3 after a write, with a dirty page.
abbrev written_disk : DiskCache toy_mbedtls mem_posix index
written_disk = (write toy_mbedtls mem_posix index fresh 50 message 90 disk).1

abbrev written_files : Vfs toy_mbedtls mem_posix index
written_files = record {
  files = 8 ∷ 3 ∷ [];
  dc = λ f. if f == 3 then written_disk else disk;
  last_err = 0;
  cipher = key;
}

written_disk-Inv :
    Inv toy_mbedtls mem_posix index mem_posix-IsPosix index-IsPageIndex 1 written_disk.pc
written_disk-Inv =
    (write-Overwritten toy_mbedtls toy_mbedtls-IsMbedtls mem_posix mem_posix-IsPosix index
      index-IsPageIndex 0 fresh 50 90 message disk (omega arith) (omega arith) (omega arith) refl
      cache-Inv).2

vfs_sync-SameView_example :
    let w = vfs_sync toy_mbedtls mem_posix index mem_files written_files in
    ((w.dc 3).pc.file
      ≡ mem_files.fsync (flush_pages toy_mbedtls mem_posix index (written_files.dc 3).pc).file)
    × SameView toy_mbedtls mem_posix index mem_posix-IsPosix
        (written_files.dc 3).pc
        (new_cache toy_mbedtls mem_posix index (written_files.dc 3).pc.cipher (w.dc 3).pc.file 2)
    × (w.dc 4 ≡ written_files.dc 4)
unfolding has
vfs_sync-SameView_example =
    vfs_sync-SameView toy_mbedtls toy_mbedtls-IsMbedtls mem_posix mem_posix-IsPosix index
      index-IsPageIndex mem_files mem_files-IsFileSystem written_files 3 4 1 2 two_files-Nodup refl
      refl written_disk-Inv

x_read-x_write_example :
    let r =
      x_read toy_mbedtls mem_posix index fresh 3 zeros 50 4090
        (x_write toy_mbedtls mem_posix index fresh 3 message 50 4090 two_files).1 in
    (r.0 ≡ sqlite_ok) × Agree 50 r.1 message
x_read-x_write_example =
    x_read-x_write toy_mbedtls toy_mbedtls-IsMbedtls mem_posix mem_posix-IsPosix index
      index-IsPageIndex 0 fresh fresh 3 4090 50 message zeros two_files (omega arith) (omega arith)
      (omega arith) refl cache-Inv

abbrev letter : MemFile
letter = record { byte = λ i. i; size = 5000; offset = 0 }

encrypt_loop-Encrypts_example :
    Encrypts toy_mbedtls mem_posix mem_posix-IsPosix key 0 letter empty_file
      (encrypt_loop toy_mbedtls mem_posix key 3 zeros 0 letter empty_file)
encrypt_loop-Encrypts_example =
    encrypt_loop-Encrypts toy_mbedtls mem_posix mem_posix-IsPosix key 3 zeros 0 letter empty_file
      (omega arith) (omega arith)

abbrev rewind : MemFile → MemFile
rewind f = record f { offset = 0 }

main-main_example :
    Restores toy_mbedtls toy_mbedtls-IsMbedtls mem_posix mem_posix-IsPosix letter
      (main toy_mbedtls mem_posix
        (λ n. ok letter)
        (λ n. ok empty_file)
        3
        zeros
        (command [] (codes "e") (codes "pw") (codes "in") (codes "out")))
      (λ f.
        main toy_mbedtls mem_posix
          (λ n. ok (rewind f))
          (λ n. ok empty_file)
          3
          zeros
          (command [] (codes "d") (codes "pw") (codes "out") (codes "back")))
main-main_example =
    main-main toy_mbedtls toy_mbedtls-IsMbedtls mem_posix mem_posix-IsPosix [] (codes "pw")
      (codes "in") (codes "out") (codes "back") letter empty_file rewind 3 zeros refl refl refl
      (λ f. refl) (λ f i. refl) (λ f. refl) (omega arith) (omega arith)

no_mode :
    main toy_mbedtls mem_posix
      (λ n. ok letter)
      (λ n. ok empty_file)
      3
      zeros
      (command [] (codes "x") (codes "pw") (codes "in") (codes "out"))
    ≡ usage
unfolding main
no_mode = refl
