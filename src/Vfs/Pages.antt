-- ===== src/Vfs/Pages.antt =====
-- aes_vfs/PageCache.h, PageCache.cc: the cache of pages.
-- A `DiskPage *` is a number, `page` is the memory that the pointers lead to, and `new` takes the
-- number `next_ptr`. `page_list` and `page_lru` are the sequences of the two intrusive lists.
-- `fresh` gives the contents of a new object's buffer before the constructor reads it.
pub mod Invariant
pub mod WriteBack
pub mod Drop
pub mod Release
pub mod Load
pub mod Get
pub mod Flush
use sqlite3gen.Base.{
  ℕ, suc, ◌+◌, ◌-◌, ◌/◌, ◌%◌, ◌^◌, Bool, true, false, Option, none, some, List, [], ◌∷◌, ltb, leb,
  ◌==◌, if◌then◌else◌, length,
}
use sqlite3gen.Dll.Sequence.{has, erase, add_tail}
use sqlite3gen.Vfs.Memory.{Buffer, page_size}
use sqlite3gen.Vfs.Platform.{Mbedtls, Posix}
use sqlite3gen.Vfs.Cipher.{PageCipher}
use sqlite3gen.Vfs.Disk.{DiskPage, flush, new_page}
use sqlite3gen.Vfs.Index.{PageIndex}

abbrev pub update {ℓ} : {A : Type ℓ} → (ℕ → A) → ℕ → A → ℕ → A
update f p v q = if q == p then v else f q

-- `std::sort` by `pgs_sort`, as an insertion sort.
unfoldable pub insert_by : (ℕ → ℕ) → ℕ → List ℕ → List ℕ
insert_by key p [] = p ∷ []
insert_by key p (x ∷ xs) = if ltb (key x) (key p) then x ∷ insert_by key p xs else p ∷ x ∷ xs

unfoldable pub sort_by : (ℕ → ℕ) → List ℕ → List ℕ
unfolding insert_by
sort_by key [] = []
sort_by key (x ∷ xs) = insert_by key x (sort_by key xs)

module _ (m : Mbedtls) (o : Posix) (ix : PageIndex) where
  pub record PageCache : Type 0 where
    pub cipher : PageCipher
    pub file : o.File
    pub max_pages : ℕ
    pub page : ℕ → DiskPage
    pub next_ptr : ℕ
    pub page_list : List ℕ
    pub page_lru : List ℕ
    pub page_hash : ix.Index

  -- `pageNumber` of each object, which is what the hash compares.
  abbrev pub number : PageCache → ℕ → ℕ
  number s p = (s.page p).page_number

  unfoldable pub new_cache : PageCipher → o.File → ℕ → PageCache
  new_cache c f max_pages = record {
    cipher = c;
    file = f;
    max_pages = max_pages;
    page = λ p. record { page_number = 0; buffer = λ i. 0; dirty = false };
    next_ptr = 0;
    page_list = [];
    page_lru = [];
    page_hash = ix.empty;
  }

  -- The page is in use from here on, so it leaves the list of those that may be dropped.
  unfoldable pub pin : ℕ → PageCache → PageCache
  pin p s = if has p s.page_lru then record s { page_lru = erase p s.page_lru } else s

  unfoldable pub load_page : (fresh : ℕ → Buffer) → ℕ → PageCache → ℕ × PageCache
  load_page fresh pgno s =
      let p = s.next_ptr in
      let (pg, f) = new_page m o s.cipher pgno (fresh p) s.file in
      let page = update s.page p pg in
      (
        p,
        record s {
          file = f;
          page = page;
          next_ptr = suc p;
          page_list = add_tail s.page_list p;
          page_hash = ix.add (λ q. (page q).page_number) p s.page_hash;
        },
      )

  unfoldable pub get_page : (fresh : ℕ → Buffer) → ℕ → PageCache → ℕ × PageCache
  get_page fresh pgno s = elim (ix.find (number s) pgno s.page_hash) [
    | some p ↦ (p, pin p s)
    | none ↦ load_page fresh pgno s
  ]

  -- `pg->flush()`, which is also what `delete pg` does, by the destructor.
  unfoldable pub write_back : ℕ → PageCache → PageCache
  write_back p s =
      let (pg, f) = flush m o s.cipher (s.page p) s.file in
      record s { file = f; page = update s.page p pg }

  unfoldable pub unlist : ℕ → PageCache → PageCache
  unlist p s = record s {
    page_hash = ix.remove (number s) p s.page_hash;
    page_list = erase p s.page_list;
  }

  -- One page out of the hash, the list and memory.
  unfoldable pub drop_page : ℕ → PageCache → PageCache
  unfolding write_back unlist
  drop_page p s = write_back p (unlist p s)

  -- `while (page_lru.get_cnt() > max_pages)`, by the items that are left on the list.
  unfoldable pub evict : List ℕ → PageCache → PageCache
  evict [] s = record s { page_lru = [] }
  evict (p ∷ rest) s =
      let next = evict rest (drop_page p (record s { page_lru = rest })) in
      if ltb s.max_pages (length (p ∷ rest)) then next else record s { page_lru = p ∷ rest }

  unfoldable pub release_page : ℕ → PageCache → PageCache
  release_page p s =
      let lru = if has p s.page_lru then s.page_lru else add_tail s.page_lru p in
      evict lru (record s { page_lru = lru })

  unfoldable pub dirty_pages : (ℕ → DiskPage) → List ℕ → List ℕ
  dirty_pages page [] = []
  dirty_pages page (p ∷ ps) =
      let rest = dirty_pages page ps in if (page p).dirty then p ∷ rest else rest

  unfoldable pub flush_each : List ℕ → PageCache → PageCache
  flush_each [] s = s
  flush_each (p ∷ ps) s = flush_each ps (write_back p s)

  unfoldable pub flush_pages : PageCache → PageCache
  unfolding dirty_pages sort_by flush_each
  flush_pages s = flush_each (sort_by (number s) (dirty_pages s.page s.page_list)) s

  -- The walk of `truncate`: a page beyond `pgno` goes without being written.
  unfoldable pub truncate_each : ℕ → List ℕ → PageCache → PageCache
  truncate_each pgno [] s = s
  truncate_each pgno (p ∷ ps) s =
      let pg = s.page p in
      let s₁ = pin p s in
      let clean = record s₁ { page = update s.page p (record pg { dirty = false }) } in
      truncate_each pgno ps (if ltb pgno pg.page_number then drop_page p clean else s)

  unfoldable pub truncate_pages : ℕ → PageCache → PageCache
  truncate_pages size s =
      let pgno = (size + (page_size - 1)) / page_size % 2 ^ 32 in
      let s' = truncate_each pgno s.page_list s in record s' { file = o.ftruncate s'.file size }

  -- The destructor: every page off the lists, and written back if it is dirty.
  unfoldable pub close_each : List ℕ → PageCache → PageCache
  close_each [] s = s
  close_each (p ∷ ps) s = close_each ps (drop_page p (pin p s))

  unfoldable pub close_pages : PageCache → PageCache
  unfolding close_each
  close_pages s = close_each s.page_list s
