-- ===== src/Tests/Locks.antt =====
-- aes_vfs/LockWait.h, run on short lives of a lock and of a wait.
use sqlite3gen.Base.{◌≡◌, refl, true, false, [], ◌∷◌, ◌++◌, ◌+◌, ◌*◌, ◌≤◌, arith}
use sqlite3gen.Vfs.Locks.{
  use_lock, use_unlock, lock_life, run_calls, new_lockable, Timespec, billion, deadline, Wake, take,
}
use sqlite3gen.Vfs.Locks.Balance.{paired, lock_life_lem}
use sqlite3gen.Vfs.Locks.Waiting.{nanoseconds, deadline_lem, ending, take_lem}

-- One unlock too many between.
lock_life_lem_example :
    (paired false (lock_life true (use_lock ∷ use_unlock ∷ use_unlock ∷ use_unlock ∷ [])) ≡ true)
    × ((run_calls
          (lock_life true (use_lock ∷ use_unlock ∷ use_unlock ∷ use_unlock ∷ []))
          new_lockable).locked
        ≡ false)
lock_life_lem_example = lock_life_lem true (use_lock ∷ use_unlock ∷ use_unlock ∷ use_unlock ∷ [])

abbrev noon : Timespec
noon = record { tv_sec = 43200; tv_nsec = 600000000 }

deadline_lem_example :
    (nanoseconds (deadline 1 2500000000 noon) ≡ nanoseconds noon + (1 * billion + 2500000000))
    × ((deadline 1 2500000000 noon).tv_nsec ≤ billion)
deadline_lem_example = deadline_lem 1 2500000000 noon (omega arith)

-- The limit is reached, which is no valid time: the test is on more than a billion.
whole_second : (deadline 1 400000000 noon).tv_nsec ≡ billion
unfolding deadline
whole_second = refl

abbrev spurious : Wake
spurious = record { signaled = true; value = 0 }

-- The call times out, and a count is there.
abbrev late : Wake
late = record { signaled = false; value = 3 }

take_lem_example : take true 0 ((spurious ∷ []) ++ late ∷ []) ≡ ending true late
take_lem_example = take_lem true (spurious ∷ []) [] late refl refl
