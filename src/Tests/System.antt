-- ===== src/Tests/System.antt =====
-- aes_vfs/aes_vfs.cc: the calls on the system, on given names and times.
use sqlite3gen.Base.{ℕ, ◌≤◌, ◌≡◌, refl, true, false, some, [], ◌∷◌, arith, take}
use sqlite3gen.Base.Text.{codes}
use sqlite3gen.Vfs.Memory.{Buffer}
use sqlite3gen.Vfs.Files.Codes.{sqlite_ok}
use sqlite3gen.Vfs.System.{System, x_full_pathname, x_current_time_int64, x_sleep, sleep, usleep}
use sqlite3gen.Vfs.System.Paths.{c_string, full_path, room, x_full_pathname_lem}

-- A system with one directory, at noon of the first day of 1970.
abbrev small_system : System
small_system = record {
  State = Unit {0};
  unlink = λ name s. (false, s);
  stat = λ name s. true;
  getcwd = λ size s. some (codes "/home");
  time = λ s. 43200;
  strerror = λ e. codes "Unknown error";
}

abbrev dots : Buffer
dots i = 46

x_full_pathname_lem_example :
    (c_string 10 0 (x_full_pathname small_system [] (codes "a.db") 10 dots tt).1
      ≡ take (room (codes "a.db") 10) (full_path (codes "/home") (codes "a.db")))
    × ((i : ℕ) → 10 ≤ i → (x_full_pathname small_system [] (codes "a.db") 10 dots tt).1 i ≡ dots i)
x_full_pathname_lem_example =
    x_full_pathname_lem small_system [] (codes "a.db") (codes "/home") 10 dots tt refl (omega arith)
      (omega arith) (omega arith, (omega arith, (omega arith, (omega arith, tt))))
      (omega arith, (omega arith, (omega arith, (omega arith, (omega arith, tt)))))

-- Ten bytes hold eight of the path, with SQLITE_OK.
cut_path :
    take (room (codes "a.db") 10) (full_path (codes "/home") (codes "a.db")) ≡ codes "/home/a."
cut_path = refl

noon : x_current_time_int64 small_system tt ≡ (sqlite_ok, 2440588)
unfolding x_current_time_int64
noon = refl

nap : x_sleep 2500000 ≡ (sleep 2 ∷ usleep 500000 ∷ [], 2500000)
unfolding x_sleep
nap = refl
