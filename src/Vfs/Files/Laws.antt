-- ===== src/Vfs/Files/Laws.antt =====
-- aes_vfs/aes_vfs_file.cc, aes_vfs.cc: a file reads what was written to it, and the list of open
-- files is what was opened and not closed.
use sqlite3gen.Base.{
  ℕ, ◌*◌, ◌/◌, ◌≤◌, ◌<◌, ◌≡◌, ◌≢◌, refl, ◌∙◌, ap, sym, subst, true, false, List, [], ◌∷◌, arith,
  ◌==◌, if◌then◌else◌, ==_refl, Bool-cases, inl, inr,
}
use native.Mathlib.Decide.{ℕ_discrete}
use sqlite3gen.Dll.Sequence.{has, erase, Nodup}
use sqlite3gen.Vfs.Memory.{Buffer, Agree, page_size}
use sqlite3gen.Vfs.Platform.{Mbedtls, IsMbedtls, Posix, IsPosix}
use sqlite3gen.Vfs.Disk.Slots.{max_disk_pages}
use sqlite3gen.Vfs.Index.{PageIndex, IsPageIndex}
use sqlite3gen.Vfs.Pages.{update}
use sqlite3gen.Vfs.Pages.Invariant.{Inv}
use sqlite3gen.Vfs.Cache.{DiskCache, read, write}
use sqlite3gen.Vfs.Cache.Reach.{last_page}
use sqlite3gen.Vfs.Cache.RoundTrip.{read-write}
use sqlite3gen.Vfs.Files.{
  Vfs, FileSystem, register_file, unregister_file, x_read, x_write, x_sync, sync_cache, sync_files,
  vfs_sync,
}
use sqlite3gen.Vfs.Files.Codes.{sqlite_ok}

update_self {ℓ} : {A : Type ℓ} (f : ℕ → A) (p : ℕ) (v : A) → update f p v p ≡ v
update_self f p v = ground arith

update_other {ℓ} : {A : Type ℓ} (f : ℕ → A) (p q : ℕ) (v : A) → q ≢ p → update f p v q ≡ f q
update_other f p q v h = ground arith

module _ (m : Mbedtls) (o : Posix) (ix : PageIndex) where
  -- A file that is taken off the list right after it was put on it leaves the VFS as it was.
  pub unregister_file-register_file :
      (f : ℕ) (v : Vfs m o ix) → unregister_file m o ix f (register_file m o ix f v) ≡ v
  unfolding unregister_file register_file erase
  unregister_file-register_file f v = rw (==_refl f) refl

  sync_files_other :
      (fs : FileSystem o) (xs : List ℕ) (v : Vfs m o ix) (f : ℕ)
      → has f xs ≡ false
      → (sync_files m o ix fs xs v).dc f ≡ v.dc f
  unfolding sync_files x_sync has
  sync_files_other fs [] v f h = refl
  sync_files_other fs (x ∷ xs) v f h =
      sync_files_other fs xs (x_sync m o ix fs x v).1 f (ground arith)
      ∙ update_other v.dc x f _ (ground arith)

  sync_files_lem :
      (fs : FileSystem o) (xs : List ℕ) (v : Vfs m o ix) (f : ℕ)
      → Nodup xs
      → has f xs ≡ true
      → (sync_files m o ix fs xs v).dc f ≡ sync_cache m o ix fs (v.dc f)
  unfolding sync_files x_sync has
  sync_files_lem fs [] v f n h = cc
  sync_files_lem fs (x ∷ xs) v f n h = elim (ℕ_discrete f x) [
    | yes e ↦
        let absent = subst (λ (p : ℕ). has p xs ≡ false) (sym e) n.0 in
        sync_files_other fs xs (x_sync m o ix fs x v).1 f absent
        ∙ subst
            (λ (p : ℕ).
              update v.dc x (sync_cache m o ix fs (v.dc x)) p ≡ sync_cache m o ix fs (v.dc p))
            (sym e) (update_self v.dc x (sync_cache m o ix fs (v.dc x)))
    | no ne ↦
        sync_files_lem fs xs (x_sync m o ix fs x v).1 f n.1 (ground arith)
        ∙ ap (sync_cache m o ix fs) (update_other v.dc x f _ ne)
  ]

  read_count :
      (fresh : ℕ → Buffer) (pos size : ℕ) (buf : Buffer) (d : DiskCache m o ix)
      → (read m o ix fresh pos buf size d).0 ≡ size
  unfolding read
  read_count fresh pos size buf d = refl

  -- `xRead` never takes the branch of a short read.
  x_read_lem :
      (fresh : ℕ → Buffer) (f : ℕ) (ptr : Buffer) (amt ofst : ℕ) (v : Vfs m o ix)
      → ((x_read m o ix fresh f ptr amt ofst v).0 ≡ sqlite_ok)
        × ((x_read m o ix fresh f ptr amt ofst v).1 ≡ (read m o ix fresh ofst ptr amt (v.dc f)).1)
  unfolding x_read
  x_read_lem fresh f ptr amt ofst v =
      let same : ((read m o ix fresh ofst ptr amt (v.dc f)).0 == amt) ≡ true =
        ap (λ (k : ℕ). k == amt) (read_count fresh ofst amt ptr (v.dc f)) ∙ ==_refl amt in
      rw same (refl, refl)

  -- The sync of the VFS, whose list has no file twice, flushes and syncs each file on the list
  -- once, and leaves every other file.
  pub vfs_sync_lem :
      (fs : FileSystem o) (v : Vfs m o ix) (f : ℕ)
      → Nodup v.files
      → (vfs_sync m o ix fs v).dc f
        ≡ (if has f v.files then sync_cache m o ix fs (v.dc f) else v.dc f)
  unfolding vfs_sync
  vfs_sync_lem fs v f n = elim (Bool-cases (has f v.files)) [
    | inl e ↦ rw e (sync_files_lem fs v.files v f n e)
    | inr e ↦ rw e (sync_files_other fs v.files v f e)
  ]

module _ (m : Mbedtls) (crypto : IsMbedtls m) (o : Posix) (law : IsPosix o) (ix : PageIndex)
    (ixl : IsPageIndex ix) (n : ℕ) (fresh fresh' : ℕ → Buffer) where
  -- On an open file whose cache keeps its invariant with n pages and a file size of n pages, xRead
  -- gives SQLITE_OK and the bytes that xWrite put there right before, for a range of at least one
  -- byte that starts in those n pages or at their end and ends below page 1040448, where no call
  -- on the file fails and the cipher decrypts what it encrypts.
  pub x_read-x_write :
      (f : ℕ) (ofst amt : ℕ) (buf out : Buffer) (v : Vfs m o ix)
      → 0 < amt
      → ofst / page_size ≤ n
      → last_page ofst amt < max_disk_pages
      → (v.dc f).file_size ≡ n * page_size
      → Inv m o ix law ixl n (v.dc f).pc
      → let r = x_read m o ix fresh' f out amt ofst (x_write m o ix fresh f buf amt ofst v).1 in
        (r.0 ≡ sqlite_ok) × Agree amt r.1 buf
  unfolding x_write
  x_read-x_write f ofst amt buf out v some joined small total inv =
      let w = (x_write m o ix fresh f buf amt ofst v).1 in
      let (code, bytes) = x_read_lem m o ix fresh' f out amt ofst w in
      let file = update_self v.dc f (write m o ix fresh ofst buf amt (v.dc f)).1 in
      (
        code,
        λ i h.
            ap (λ (b : Buffer). b i)
              (bytes ∙ ap (λ (d : DiskCache m o ix). (read m o ix fresh' ofst out amt d).1) file)
            ∙ read-write m crypto o law ix ixl n fresh fresh' ofst amt buf out (v.dc f) some joined
                small total inv i h,
      )
