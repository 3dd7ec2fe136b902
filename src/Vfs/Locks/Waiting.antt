-- ===== src/Vfs/Locks/Waiting.antt =====
-- aes_vfs/LockWait.h: the deadlines of Waiter and the waits of Semaphore.
use sqlite3gen.Base.{
  ℕ, zero, suc, ap, ◌-◌, if◌then◌else◌, Bool-cases, inl, inr, ◌+◌, ◌*◌, ◌≤◌, ◌<◌, ◌≡◌, refl, Bool,
  true, false, not, ◌&&◌, ◌||◌, List, [], ◌∷◌, ◌++◌, arith, ltb,
}
use sqlite3gen.Base.Result.{all}
use sqlite3gen.Vfs.Locks.{Timespec, billion, deadline, Wake, Taken, returned, take}

-- A time in nanoseconds.
abbrev pub nanoseconds : Timespec → ℕ
nanoseconds t = t.tv_sec * billion + t.tv_nsec

-- The deadline of a wait for seconds and nanoseconds that are not negative is the time of the
-- clock and the time asked for, to the nanosecond, and its nanoseconds are at most a billion,
-- where those of the clock are below a billion.
pub deadline_lem :
    (sec nsec : ℕ) (now : Timespec)
    → now.tv_nsec < billion
    → (nanoseconds (deadline sec nsec now) ≡ nanoseconds now + (sec * billion + nsec))
      × ((deadline sec nsec now).tv_nsec ≤ billion)
unfolding deadline
deadline_lem sec nsec now h = (ground (arith, h), ground (arith, h))

-- A wake-up that leaves a call waiting.
abbrev pub idle : (timed : Bool) → Wake → Bool
idle timed w = not (ltb 0 w.value) && (not timed || w.signaled)

idle_value : (timed : Bool) (w : Wake) → idle timed w ≡ true → w.value ≡ 0
idle_value timed w h = ground arith

idle_signaled : (w : Wake) → idle true w ≡ true → w.signaled ≡ true
idle_signaled w h = ground arith

-- What a call makes of the wake-up that ends it.
abbrev pub ending : (timed : Bool) → Wake → Taken
ending timed w =
    if timed && not w.signaled then returned false w.value else returned true (w.value - 1)

counted : (n : ℕ) (ws : List Wake) (timed : Bool) → 0 < n → take timed n ws ≡ returned true (n - 1)
unfolding take
counted zero ws timed h = absurd (omega (arith, h))
counted (suc n) ws timed h = ap (returned true) (omega arith)

ending-take :
    (timed : Bool) (w : Wake) (ws : List Wake)
    → idle timed w ≡ false
    → take timed 0 (w ∷ ws) ≡ ending timed w
unfolding take
ending-take true w ws h = elim (Bool-cases w.signaled) [
  | inl e ↦ rw e (counted w.value ws true (ground (arith, h, e)))
  | inr e ↦ rw e refl
]
ending-take false w ws h = counted w.value ws false (ground (arith, h))

-- A call of take that found the semaphore at 0 goes on waiting at each wake-up that finds no count
-- and is no timeout of a call with a deadline, and ends at the first other one: with false, and
-- the count as it is, where the call has a deadline and the wake-up is a timeout, though there may
-- be a count; else with true and one count less.
pub take_lem :
    (timed : Bool) (before after : List Wake) (w : Wake)
    → all (idle timed) before ≡ true
    → idle timed w ≡ false
    → take timed 0 (before ++ w ∷ after) ≡ ending timed w
unfolding take
take_lem timed [] after w h last = ending-take timed w after last
take_lem true (v ∷ ws) after w h last =
    rw (idle_signaled v (ground (arith, h)), idle_value true v (ground (arith, h)))
      (take_lem true ws after w (ground (arith, h)) last)
take_lem false (v ∷ ws) after w h last =
    rw (idle_value false v (ground (arith, h))) (take_lem false ws after w (ground (arith, h)) last)
