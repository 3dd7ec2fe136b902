-- ===== src/Vfs/Files/Opened.antt =====
-- aes_vfs/aes_vfs_file.cc, aes_vfs.cc: which files are on the list of the VFS, after opens that may fail
-- and closes.
use sqlite3gen.Base.{
  ℕ, ◌≡◌, Bool, true, false, ◌&&◌, ◌||◌, not, Option, none, some, List, [], ◌∷◌, arith, ◌==◌,
}
use sqlite3gen.Base.Text.{Text}
use sqlite3gen.Base.Result.{Result, ok, err}
use sqlite3gen.Dll.Sequence.{has, Nodup, has-erase, Nodup-erase}
use sqlite3gen.Vfs.Platform.{Mbedtls, Posix}
use sqlite3gen.Vfs.Index.{PageIndex}
use sqlite3gen.Vfs.Files.{
  Vfs, FileSystem, register_file, unregister_file, opened, my_x_open, x_open, x_close,
}
use sqlite3gen.Vfs.Files.Codes.{Code, sqlite_ok}

pub data FileCall : Type 0 where
  call_open : (z_name : Option Text) (f flags : ℕ) → FileCall
  call_close : ℕ → FileCall

abbrev pub is_ok_code : Code → Bool
is_ok_code c = elim c [ sqlite_ok ↦ true | _ ↦ false ]

-- What a client knows from the codes that the calls returned.
abbrev pub known_open : List FileCall → List Code → (ℕ → Bool) → ℕ → Bool
known_open [] codes set z = set z
known_open (c ∷ cs) [] set z = set z
known_open (call_open z_name f flags ∷ cs) (code ∷ codes) set z =
    known_open cs codes (λ q. set q || (is_ok_code code && (q == f))) z
known_open (call_close f ∷ cs) (code ∷ codes) set z =
    known_open cs codes (λ q. set q && not (q == f)) z

module _ (m : Mbedtls) (o : Posix) (ix : PageIndex) (fs : FileSystem o) where
  unfoldable pub call : FileCall → Vfs m o ix → Code × Vfs m o ix
  unfolding my_x_open x_close
  call (call_open z_name f flags) v =
      let (code, out_flags, v') = my_x_open m o ix fs z_name f flags v in (code, v')
  call (call_close f) v = x_close m o ix f v

  abbrev pub run : List FileCall → Vfs m o ix → List Code × Vfs m o ix
  run [] v = ([], v)
  run (c ∷ cs) v = let (code, v') = call c v in let (codes, v'') = run cs v' in (code ∷ codes, v'')

  -- An object is opened only while it is closed.
  abbrev Fits : FileCall → Vfs m o ix → Type 0
  Fits (call_open z_name f flags) v = has f v.files ≡ false
  Fits (call_close f) v = Unit {0}

  abbrev pub AllFit : List FileCall → Vfs m o ix → Type 0
  AllFit [] v = Unit {0}
  AllFit (c ∷ cs) v = Fits c v × AllFit cs (call c v).1

  abbrev Listed : (ℕ → Bool) → Vfs m o ix → Type 0
  Listed set v = Nodup v.files × ((z : ℕ) → has z v.files ≡ set z)

  opened-Listed :
      (r : Result ℕ o.File) (f : ℕ) (set : ℕ → Bool) (v : Vfs m o ix)
      → has f v.files ≡ false
      → Listed set v
      → Listed
          (λ q. set q || (is_ok_code (opened m o ix f r v).0 && (q == f)))
          (opened m o ix f r v).1
  unfolding opened register_file has
  opened-Listed (err errno) f set v new l = (l.0, λ z. ground (arith, l.1 z))
  opened-Listed (ok fd) f set v new l = ((new, l.0), λ z. ground (arith, l.1 z))

  open_Listed :
      (z_name : Option Text) (f flags : ℕ) (set : ℕ → Bool) (v : Vfs m o ix)
      → has f v.files ≡ false
      → Listed set v
      → Listed
          (λ q. set q || (is_ok_code (call (call_open z_name f flags) v).0 && (q == f)))
          (call (call_open z_name f flags) v).1
  unfolding call my_x_open x_open
  open_Listed none f flags set v new l = (l.0, λ z. ground (arith, l.1 z))
  open_Listed (some name) f flags set v new l = opened-Listed (fs.open_file name) f set v new l

  close_Listed :
      (f : ℕ) (set : ℕ → Bool) (v : Vfs m o ix)
      → Listed set v
      → Listed (λ q. set q && not (q == f)) (call (call_close f) v).1
  unfolding call x_close unregister_file
  close_Listed f set v l =
      (Nodup-erase f v.files l.0, λ z. ground (arith, l.1 z, has-erase z f v.files l.0))

  -- After opens, which may fail, and closes, where an object is opened only while it is not on the
  -- list, the list of the VFS has no file twice, and holds the files that it held and those whose
  -- open returned SQLITE_OK, without those that were closed since.
  pub run-Listed :
      (cs : List FileCall) (set : ℕ → Bool) (v : Vfs m o ix)
      → Nodup v.files
      → ((z : ℕ) → has z v.files ≡ set z)
      → AllFit cs v
      → Nodup (run cs v).1.files
        × ((z : ℕ) → has z (run cs v).1.files ≡ known_open cs (run cs v).0 set z)
  run-Listed [] set v n l f = (n, l)
  run-Listed (call_open z_name g flags ∷ cs) set v n l f =
      let (n', l') = open_Listed z_name g flags set v f.0 (n, l) in
      run-Listed cs _ (call (call_open z_name g flags) v).1 n' l' f.1
  run-Listed (call_close g ∷ cs) set v n l f =
      let (n', l') = close_Listed g set v (n, l) in
      run-Listed cs _ (call (call_close g) v).1 n' l' f.1
