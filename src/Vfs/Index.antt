-- ===== src/Vfs/Index.antt =====
-- The interface of `DLL3::Hash` as aes_vfs/PageCache.cc uses it: items by address, found by a key.
-- An operation takes the key of each item (`obj2hash`) where the table reads it.
pub mod Table
use sqlite3gen.Base.{ℕ, ◌≡◌, ◌≢◌, Bool, true, false, Option, List, []}
use sqlite3gen.Dll.Sequence.{has, erase, add_tail, find_first, Nodup}

pub record PageIndex : Type 1 where
  pub Index : Type 0
  pub empty : Index
  pub add : (key : ℕ → ℕ) (item : ℕ) → Index → Index
  pub remove : (key : ℕ → ℕ) (item : ℕ) → Index → Index
  pub find : (key : ℕ → ℕ) (k : ℕ) → Index → Option ℕ

-- No two items of the list have one key.
abbrev pub DistinctKeys : (ℕ → ℕ) → List ℕ → Type 0
DistinctKeys key xs = (p q : ℕ) → has p xs ≡ true → has q xs ≡ true → key p ≡ key q → p ≡ q

-- What an index promises: it holds the items of a list, and finds what a walk of the list finds.
pub record IsPageIndex (ix : PageIndex) : Type 1 where
  pub Holds : (ℕ → ℕ) → List ℕ → ix.Index → Type 0
  pub holds-empty : (key : ℕ → ℕ) → Holds key [] ix.empty
  pub holds-add :
      (key : ℕ → ℕ) (xs : List ℕ) (h : ix.Index) (p : ℕ)
      → Holds key xs h
      → Nodup xs
      → has p xs ≡ false
      → Holds key (add_tail xs p) (ix.add key p h)
  pub holds-remove :
      (key : ℕ → ℕ) (xs : List ℕ) (h : ix.Index) (p : ℕ)
      → Holds key xs h
      → Nodup xs
      → has p xs ≡ true
      → Holds key (erase p xs) (ix.remove key p h)
  pub holds-find :
      (key : ℕ → ℕ) (xs : List ℕ) (h : ix.Index) (k : ℕ)
      → Holds key xs h
      → DistinctKeys key xs
      → ix.find key k h ≡ find_first key k xs
  pub holds_congr :
      (key key' : ℕ → ℕ) (xs : List ℕ) (h : ix.Index)
      → ((p : ℕ) → has p xs ≡ true → key p ≡ key' p)
      → Holds key xs h
      → Holds key' xs h
