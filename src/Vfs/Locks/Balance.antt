-- ===== src/Vfs/Locks/Balance.antt =====
-- aes_vfs/LockWait.h: the calls of a Lock come in pairs.
use sqlite3gen.Base.{
  ℕ, zero, suc, ◌≡◌, refl, ◌∙◌, Bool, true, false, not, ◌&&◌, List, [], ◌∷◌, arith,
}
use sqlite3gen.Vfs.Locks.{
  Call, call_lock, call_unlock, recursion_error, Lockable, new_lockable, lockable_lock,
  lockable_unlock, new_lock, lock, unlock, delete_lock, Use, use_lock, use_unlock, uses, lock_life,
  run_calls,
}

-- A lock only while it is not held, an unlock only while it is, and not held at the end.
abbrev pub paired : (held : Bool) → List Call → Bool
paired held [] = not held
paired held (call_lock ∷ cs) = not held && paired true cs
paired held (call_unlock ∷ cs) = held && paired false cs
paired held (recursion_error ∷ cs) = paired held cs

-- Whether a `Lock` with a count holds its `Lockable`.
abbrev holds : (lock_count : ℕ) → Bool
holds zero = false
holds (suc n) = true

uses-paired : (us : List Use) (n : ℕ) → paired (holds n) (uses us n) ≡ true
unfolding uses lock unlock delete_lock
uses-paired [] zero = refl
uses-paired [] (suc n) = refl
uses-paired (use_lock ∷ us) zero = uses-paired us 1
uses-paired (use_lock ∷ us) (suc n) = uses-paired us (suc (suc n))
uses-paired (use_unlock ∷ us) zero = uses-paired us 0
uses-paired (use_unlock ∷ us) (suc zero) = uses-paired us 0
uses-paired (use_unlock ∷ us) (suc (suc n)) = uses-paired us (suc n)

life-paired : (dolock : Bool) (us : List Use) → paired false (lock_life dolock us) ≡ true
unfolding lock_life new_lock
life-paired true us = uses-paired us 1
life-paired false us = uses-paired us 0

-- Whether the mutex is held after calls that come in pairs.
abbrev pub held_after : (held : Bool) → List Call → Bool
held_after held [] = held
held_after held (call_lock ∷ cs) = held_after true cs
held_after held (call_unlock ∷ cs) = held_after false cs
held_after held (recursion_error ∷ cs) = held_after held cs

-- The flag `locked` follows the last call.
run_calls-locked :
    (cs : List Call) (l : Lockable) → (run_calls cs l).locked ≡ held_after l.locked cs
unfolding run_calls lockable_lock lockable_unlock
run_calls-locked [] l = refl
run_calls-locked (call_lock ∷ cs) l = run_calls-locked cs (lockable_lock l)
run_calls-locked (call_unlock ∷ cs) l = run_calls-locked cs (lockable_unlock l)
run_calls-locked (recursion_error ∷ cs) l = run_calls-locked cs l

paired_after : (held : Bool) (cs : List Call) → paired held cs ≡ true → held_after held cs ≡ false
paired_after true [] h = cc
paired_after false [] h = refl
paired_after held (call_lock ∷ cs) h = paired_after true cs (ground (arith, h))
paired_after held (call_unlock ∷ cs) h = paired_after false cs (ground (arith, h))
paired_after held (recursion_error ∷ cs) h = paired_after held cs h

-- Whatever calls of lock and unlock a Lock gets, it locks its Lockable only while it does not hold
-- it, unlocks it only while it holds it, and does not hold it at its end, where a new Lockable
-- then says that it is not locked.
pub lock_life_lem :
    (dolock : Bool) (us : List Use)
    → (paired false (lock_life dolock us) ≡ true)
      × ((run_calls (lock_life dolock us) new_lockable).locked ≡ false)
unfolding new_lockable
lock_life_lem dolock us =
    let h = life-paired dolock us in
    (
      h,
      run_calls-locked (lock_life dolock us) new_lockable
          ∙ paired_after false (lock_life dolock us) h,
    )
