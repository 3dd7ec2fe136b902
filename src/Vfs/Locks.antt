-- ===== src/Vfs/Locks.antt =====
-- aes_vfs/LockWait.h: Lockable, Lock, Waiter and Semaphore. The calls of pthread are the values of
-- `Call`, in the order in which they are made; what other threads do while a thread waits is the
-- list of its wake-ups. Counters are at least 0 and below
-- 2 ^ 31, where `int` does not overflow; `Semaphore::init` can set others.
pub mod Balance
pub mod Waiting
use sqlite3gen.Base.{
  ℕ, zero, suc, ◌+◌, ◌-◌, ◌*◌, ◌/◌, ◌%◌, Bool, true, false, List, [], ◌∷◌, ◌++◌, ltb, ◌==◌,
  if◌then◌else◌,
}
use sqlite3gen.Base.Numbers.{ℤ, pos, negsuc}

-- What a `Lock` does to its `Lockable`, and its message on stderr.
pub data Call : Type 0 where
  call_lock : Call
  call_unlock : Call
  recursion_error : Call

-- The flag `locked`, and the calls of pthread_mutex_lock and pthread_mutex_unlock, last first.
pub record Lockable : Type 0 where
  pub locked : Bool
  pub calls : List Call

unfoldable pub new_lockable : Lockable
new_lockable = record { locked = false; calls = [] }

unfoldable pub lockable_lock : Lockable → Lockable
lockable_lock l = record { locked = true; calls = call_lock ∷ l.calls }

unfoldable pub lockable_unlock : Lockable → Lockable
lockable_unlock l = record { locked = false; calls = call_unlock ∷ l.calls }

-- The constructor of a `Lock`: its count, and its calls.
unfoldable pub new_lock : (dolock : Bool) → ℕ × List Call
new_lock true = (1, call_lock ∷ [])
new_lock false = (0, [])

unfoldable pub lock : (lock_count : ℕ) → ℕ × List Call
lock zero = (1, call_lock ∷ [])
lock (suc n) = (suc (suc n), [])

unfoldable pub unlock : (lock_count : ℕ) → ℕ × List Call
unlock zero = (0, recursion_error ∷ [])
unlock (suc zero) = (0, call_unlock ∷ [])
unlock (suc (suc n)) = (suc n, [])

-- The destructor.
unfoldable pub delete_lock : (lock_count : ℕ) → List Call
delete_lock zero = []
delete_lock (suc n) = call_unlock ∷ []

pub data Use : Type 0 where
  use_lock : Use
  use_unlock : Use

-- The calls of a `Lock` from a count on, up to its end.
unfoldable pub uses : List Use → (lock_count : ℕ) → List Call
unfolding lock unlock delete_lock
uses [] n = delete_lock n
uses (use_lock ∷ us) n = (lock n).1 ++ uses us (lock n).0
uses (use_unlock ∷ us) n = (unlock n).1 ++ uses us (unlock n).0

-- The whole life of a `Lock`.
unfoldable pub lock_life : (dolock : Bool) → List Use → List Call
unfolding new_lock uses
lock_life dolock us = (new_lock dolock).1 ++ uses us (new_lock dolock).0

-- The calls reach the `Lockable`.
unfoldable pub run_calls : List Call → Lockable → Lockable
unfolding lockable_lock lockable_unlock
run_calls [] l = l
run_calls (call_lock ∷ cs) l = run_calls cs (lockable_lock l)
run_calls (call_unlock ∷ cs) l = run_calls cs (lockable_unlock l)
run_calls (recursion_error ∷ cs) l = run_calls cs l

-- `struct timespec`.
pub record Timespec : Type 0 where
  pub tv_sec : ℕ
  pub tv_nsec : ℕ

abbrev pub billion : ℕ
billion = 1000000000

-- The deadline that `wait(sec, nsec)` waits for, where the clock shows `now`. The source's `sec` and
-- `nsec` are of type `int`: here they are not negative, and no sum leaves the type that holds it.
unfoldable pub deadline : (sec nsec : ℕ) → (now : Timespec) → Timespec
deadline sec nsec now =
    let s = if ltb billion nsec then sec + nsec / billion else sec in
    let n = if ltb billion nsec then nsec % billion else nsec in
    let expire_sec = now.tv_sec + s in
    let expire_nsec = now.tv_nsec + n in
    if ltb billion expire_nsec
    then record { tv_sec = expire_sec + 1; tv_nsec = expire_nsec - billion }
    else record { tv_sec = expire_sec; tv_nsec = expire_nsec }

-- A return of pthread_cond_wait or pthread_cond_timedwait: whether it gave 0, and what the other
-- threads have made of the semaphore's value.
pub record Wake : Type 0 where
  pub signaled : Bool
  pub value : ℕ

pub data Taken : Type 0 where
  returned : (result : Bool) → (value : ℕ) → Taken
  blocked : Taken

unfoldable pub give : (value : ℕ) → ℕ
give value = suc value

-- `take` from a value on, with the wake-ups that come; `timed` is whether `expire` is given. A call
-- that is out of wake-ups stays blocked.
unfoldable pub take : (timed : Bool) → (value : ℕ) → List Wake → Taken
take timed (suc value) wakes = returned true value
take timed zero [] = blocked
take timed zero (w ∷ ws) =
    let rest = take timed w.value ws in
    if timed then (if w.signaled then rest else returned false w.value) else rest
