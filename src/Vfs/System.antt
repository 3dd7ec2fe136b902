-- ===== src/Vfs/System.antt =====
-- aes_vfs/aes_vfs.cc: the calls of sqlite3 on the VFS that ask the system and touch no open file. The
-- system is a parameter: `State` is its files, a call that fails gives `none` or `false`. A name holds no
-- NUL; sizes are not negative, and time does not pass during a call.
pub mod Paths
use sqlite3gen.Base.{
  ℕ, ◌+◌, ◌-◌, ◌*◌, ◌/◌, ◌%◌, ◌^◌, ◌&&◌, Bool, true, false, Option, none, some, List, [], ◌∷◌, ◌++◌,
  min, length, get_or, ltb, ◌==◌, if◌then◌else◌,
}
use sqlite3gen.Base.Text.{Text, codes}
use sqlite3gen.Vfs.Memory.{Buffer, memset}
use sqlite3gen.Vfs.Files.Codes.{Code, sqlite_ok, sqlite_error}

-- `unlink`, `stat` as the test that it does not fail, `getcwd` with the size of its buffer, `time(0)`,
-- and `strerror`.
pub record System : Type 1 where
  pub State : Type 0
  pub unlink : Text → State → Bool × State
  pub stat : Text → State → Bool
  pub getcwd : ℕ → State → Option Text
  pub time : State → ℕ
  pub strerror : ℕ → Text

-- strncpy(dst, src, n): the string, and NULs up to `n` bytes.
unfoldable pub strncpy : Buffer → Text → ℕ → Buffer
strncpy dst src n i = if ltb i n then get_or src i 0 else dst i

-- snprintf(dst, n, "%s", src): at most `n` bytes, the last of them a NUL.
unfoldable pub snprintf : Buffer → ℕ → Text → Buffer
snprintf dst n src i =
    let count = min (length src) (n - 1) in
    if ltb i count then get_or src i 0 else if (i == count) && ltb 0 n then 0 else dst i

-- `n - 1` where an `int` becomes a `size_t`.
unfoldable pub one_less : ℕ → ℕ
one_less n = (n + (2 ^ 64 - 1)) % 2 ^ 64

abbrev pub slash : ℕ
slash = 47

abbrev pub is_absolute : Text → Bool
is_absolute [] = false
is_absolute (c ∷ cs) = c == slash

-- What `register_vfs` hands to sqlite3 beside the callbacks.
pub record Registration : Type 0 where
  pub i_version : ℕ
  pub mx_pathname : ℕ
  pub z_name : Text
  pub make_default : Bool

unfoldable pub register_vfs : Registration
register_vfs = record {
  i_version = 3;
  mx_pathname = 256;
  z_name = codes "aes";
  make_default = false;
}

-- The two calls of `my_xSleep`, in their order.
pub data Nap : Type 0 where
  sleep : (seconds : ℕ) → Nap
  usleep : (microseconds : ℕ) → Nap

unfoldable pub x_sleep : ℕ → List Nap × ℕ
x_sleep microseconds =
    (sleep (microseconds / 1000000) ∷ usleep (microseconds % 1000000) ∷ [], microseconds)

module _ (y : System) where
  -- The result of `unlink` is not looked at.
  unfoldable pub x_delete : (z_name : Text) (sync_dir : ℕ) → y.State → Code × y.State
  x_delete z_name sync_dir s = (sqlite_ok, (y.unlink z_name s).1)

  -- The result, and `*pResOut`.
  unfoldable pub x_access : (z_name : Text) (flags : ℕ) → y.State → Code × ℕ
  x_access z_name flags s = (sqlite_ok, if y.stat z_name s then 1 else 0)

  -- The result, and the bytes of `zOut`. `garbage` is what `cwd` holds where `getcwd` fails.
  unfoldable pub x_full_pathname :
      (garbage z_name : Text) (n_out : ℕ) (z_out : Buffer) → y.State → Code × Buffer
  unfolding strncpy snprintf one_less
  x_full_pathname garbage z_name n_out z_out s =
      if is_absolute z_name
      then (sqlite_ok, strncpy (memset z_out 0 0 n_out) z_name (one_less n_out))
      else let cwd = elim (y.getcwd 511 s) as (λ c. Text) [ none ↦ garbage | some path ↦ path ] in
        (sqlite_ok, snprintf (memset z_out 0 0 n_out) (one_less n_out) (cwd ++ slash ∷ z_name))

  -- The Julian day in parts of 1 / 172800 of a day, which is what `t / 86400.0 + 2440587.5` is before it is
  -- rounded to a `double`.
  unfoldable pub x_current_time : y.State → Code × ℕ
  x_current_time s = (sqlite_ok, 2 * y.time s + (2440587 * 172800 + 86400))

  -- The same number of days, cut to an integer.
  unfoldable pub x_current_time_int64 : y.State → Code × ℕ
  x_current_time_int64 s = (sqlite_ok, (2 * y.time s + (2440587 * 172800 + 86400)) / 172800)

  unfoldable pub x_get_last_error : (last_err err_len : ℕ) (text : Buffer) → ℕ × Buffer
  unfolding snprintf
  x_get_last_error last_err err_len text = (last_err, snprintf text err_len (y.strerror last_err))

-- The buffer is left as it was.
unfoldable pub x_randomness : (n_byte : ℕ) (z_out : Buffer) → Code × Buffer
x_randomness n_byte z_out = (sqlite_ok, z_out)

unfoldable pub x_dl_open : (filename : Text) → Option ℕ
x_dl_open filename = none

unfoldable pub x_dl_error : (n_byte : ℕ) (err_msg : Buffer) → Buffer
unfolding snprintf
x_dl_error n_byte err_msg =
    let text = codes "Loadable modules are not supported by this VFS" in
    memset (snprintf err_msg n_byte text) (n_byte - 1) 0 1

unfoldable pub x_dl_sym : (symbol : Text) → Option ℕ
x_dl_sym symbol = none

unfoldable pub x_set_system_call : (z_name : Text) → Code
x_set_system_call z_name = sqlite_error

unfoldable pub x_get_system_call : (z_name : Text) → Option ℕ
x_get_system_call z_name = none

unfoldable pub x_next_system_call : (z_name : Text) → Option Text
x_next_system_call z_name = none
